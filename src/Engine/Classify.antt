-- ===== src/Engine/Classify.antt =====
-- The measurement of the physical network: offveil-core/internal/engine/classify.go. A probe is a
-- function from hosts to what it reports and how long it takes; the checks do not depend on one
-- another, so the order in which the goroutines finish does not matter.
pub mod Verdict
mod Tests
use offveil.Prelude.{
  ℕ, ◌+◌, ◌*◌, ◌≤◌, ◌<◌, ◌≡◌, refl, Bool, true, false, not, ◌&&◌, ◌||◌, List, [], ◌∷◌, ◌++◌, Text,
  is_empty, length, leb, ltb, ◌==◌, if◌then◌else◌, second, map, count_if, arith, In, any, any→In,
  In→any, ◌↔◌, ◌≢◌, Bool-cases, inl, inr, ◌⊎◌,
}
use offveil.Ruleset.Document.{CanaryGroup}
use offveil.Engine.Signals.{
  FailClass, fail_ok, fail_config, is_ok, CheckClass, probed, slow, check_ok, Dpi, dpi_none,
  dpi_present, dpi_offline, dpi_unknown,
}

abbrev pub slow_handshake : ℕ
slow_handshake = 3 * second

pub record HostCheck : Type 0 where
  pub host : Text
  pub group : Text
  pub class : CheckClass
  pub took : ℕ

-- What a direct probe of a host reports, and after how many nanoseconds.
abbrev pub DirectProbe : Type 0
DirectProbe = Text → FailClass × ℕ

unfoldable pub measure : DirectProbe → Text → Text → HostCheck
measure probe host group =
    let (class, took) = probe host in
    record {
      host = host;
      group = group;
      class = if is_ok class && leb slow_handshake took then slow else probed class;
      took = took;
    }

unfoldable pub filtered : CheckClass → Bool
filtered (probed fail_ok) = false
filtered (probed fail_config) = false
filtered _ = true

-- The jobs, controls first.
control_checks : DirectProbe → List Text → List HostCheck
control_checks probe [] = []
control_checks probe (host ∷ hosts) = measure probe host [] ∷ control_checks probe hosts

group_checks : DirectProbe → List CanaryGroup → List HostCheck
group_checks probe [] = []
group_checks probe (g ∷ gs) = elim g.probe_hosts [
  | [] ↦ group_checks probe gs
  | host ∷ hosts ↦ measure probe host g.id ∷ group_checks probe gs
]

abbrev is_control : HostCheck → Bool
is_control c = is_empty c.group

-- The counters of the loop over the checks.
pub record Tally : Type 0 where
  pub controls_ok : ℕ
  pub canaries : ℕ
  pub blocked : ℕ

abbrev count_check : HostCheck → Tally → Tally
count_check c t =
    if is_control c
    then record t { controls_ok = (if check_ok c.class then 1 else 0) + t.controls_ok }
    else record t {
      canaries = 1 + t.canaries;
      blocked = (if filtered c.class then 1 else 0) + t.blocked;
    }

tally : List HostCheck → Tally
tally [] = record { controls_ok = 0; canaries = 0; blocked = 0 }
tally (c ∷ cs) = count_check c (tally cs)

verdict : ℕ → Tally → Dpi
verdict controls t =
    if leb 2 controls && ltb t.controls_ok 2
    then dpi_offline
    else if t.canaries == 0
    then dpi_unknown
    else if ltb 0 t.blocked
    then dpi_present
    else dpi_none

-- classifyNetwork.
pub classify_network : DirectProbe → List Text → List CanaryGroup → Dpi × List HostCheck
classify_network probe controls groups =
    let checks = control_checks probe controls ++ group_checks probe groups in
    (verdict (length controls) (tally checks), checks)
