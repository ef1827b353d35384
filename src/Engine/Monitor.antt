-- ===== src/Engine/Monitor.antt =====
-- The network monitor: offveil-core/internal/engine/network_health.go,
-- checkNetworkSession and checkSelectiveLocked. A round has two locked steps: `begin_check` selects
-- what is due, the probes run outside the lock, and `finish_check` applies what they measured and
-- chooses at most one repair.
pub mod Rounds
mod Tests
use offveil.Prelude.{
  ℕ, ◌+◌, ◌-◌, ◌*◌, ◌%◌, ◌≡◌, Bool, true, false, not, ◌&&◌, ◌||◌, List, [], ◌∷◌, ◌++◌, Option, none,
  some, Text, text_eq, length, count_if, any, leb, ltb, ◌==◌, if◌then◌else◌, is_empty, second,
  minute, suc,
}
use offveil.Ruleset.Document.{canary_persistent}
use offveil.Ruleset.Hosts.{member}
use offveil.Engine.Signals.{
  FailClass, is_ok, probed, GroupPath, desync_path, tunnel_path, Dpi, dpi_offline, dpi_present,
  elapsed, Layer, no_layer, dns_layer, fallback_layer, selective_layer,
}
use offveil.Engine.Groups.{GroupState, group_failure_threshold, group_retry_interval, crisis_every}
use offveil.Engine.Core.{
  Engine, Gateway, Classification, Failure, group_recovered, gateway_controls_failed,
  current_session, record_failure,
}
use offveil.Engine.Layers.{DnsRound, begin_dns}
use offveil.Engine.Status.{refresh_network_status, publish, is_offline, is_selective}
use offveil.Engine.Failures.{absent}

abbrev pub network_check_interval : ℕ
network_check_interval = 30 * second

-- The repairs: a strategy scan, a move to the tunnel, a return to the helper.
pub data Action : Type 0 where
  scan escalate revert : Text → Action

-- What a round measures: the gateway and the groups it probes.
pub record Round : Type 0 where
  pub session : ℕ
  pub due : List Text

abbrev pub gateway_session : Option Gateway → Option ℕ
gateway_session none = none
gateway_session (some g) = if g.info.up then some g.handle else none

-- Whether the round probes a group.
pub is_due : ℕ → ℕ → GroupState → Bool
is_due round now g =
    not (is_empty g.hosts)
    && (text_eq g.kind canary_persistent || round % crisis_every == 1 || ltb 0 g.failures)
    && not (g.unreachable && not (elapsed group_retry_interval g.last_escalation now))

due_groups : ℕ → ℕ → List GroupState → List Text
due_groups round now [] = []
due_groups round now (g ∷ gs) =
    let rest = due_groups round now gs in if is_due round now g then g.id ∷ rest else rest

-- The gate of checkNetworkSession.
abbrev may_check : ℕ → ℕ → Engine → Bool
may_check generation now e =
    current_session generation e
    && not e.strategy_switching
    && not e.group_work
    && elapsed network_check_interval e.last_path_check now

-- A round of the DNS layer, or one that probes through the gateway.
pub data Task : Type 0 where
  dns_task : DnsRound → Task
  probe_task : Round → Task

abbrev dns_work : Option DnsRound → Option Task
dns_work none = none
dns_work (some round) = some (dns_task round)

open_round : ℕ → Engine → Option Task
open_round now e = elim (gateway_session e.tun) [
  | none ↦ none
  | some h ↦
      some (probe_task (record { session = h; due = due_groups e.monitor_round now e.groups }))
]

open_task : ℕ → Engine → Option Task
unfolding open_round
open_task now e = elim e.layer [
  | no_layer ↦ none
  | dns_layer ↦ dns_work (begin_dns now e)
  | fallback_layer ↦ dns_work (begin_dns now e)
  | selective_layer ↦ open_round now e
]

-- checkNetworkSession and the first section of the round that it opens.
pub begin_check : ℕ → ℕ → Engine → Engine × Option Task
unfolding open_task
begin_check generation now e =
    let e1 = record e { last_path_check = now; monitor_round = suc e.monitor_round } in
    if may_check generation now e then (e1, open_task now e1) else (e, none)

-- At least two of at least two hosts open.
unfoldable pub quorum : (Text → FailClass) → List Text → Bool
quorum results hosts = leb 2 (length hosts) && leb 2 (count_if (λ h. is_ok (results h)) hosts)

-- What the probes of a round report. There is no direct probe before a classification made one.
pub record Measured : Type 0 where
  pub groups : Text → FailClass
  pub gateway : Text → FailClass
  pub direct : Option (Text → FailClass)

abbrev direct_fails : Option (Text → FailClass) → List Text → Bool
direct_fails none hosts = false
direct_fails (some probe) hosts = not (quorum probe hosts)

-- The line is offline when the controls fail both through the gateway and directly.
pub line_offline : Measured → List Text → Bool
line_offline m controls = not (quorum m.gateway controls) && direct_fails m.direct controls

pub mark_line : Bool → ℕ → Engine → Engine
mark_line line_down now e =
    if line_down
    then record e { classification = some (record { dpi = dpi_offline; checked_at = now }) }
    else elim e.classification [
      | none ↦ e
      | some c ↦
          if is_offline (some c)
          then record e {
            classification = some (record c { dpi = dpi_present });
            reclassify = true;
          }
          else e
    ]

-- Controls that fail only through the gateway are counted, and noted once.
pub mark_gateway : Bool → Bool → Engine → Engine
mark_gateway line_down controls_ok e =
    let n = suc e.network_failures in
    let e1 = record e { network_failures = n } in
    if not line_down && not controls_ok
    then (if n == group_failure_threshold
        then record_failure gateway_controls_failed none [] 0 e1
        else e1)
    else record e { network_failures = 0 }

-- The switch that chooses the repair of a group.
unfoldable pub choose : Bool → ℕ → GroupState → GroupState × Action
choose scanning now g = elim g.path [
  | desync_path ↦
      if elapsed group_retry_interval g.last_scan now && not scanning
      then (record g { last_scan = now }, scan g.id)
      else (g, escalate g.id)
  | tunnel_path ↦ (g, revert g.id)
]

-- One group of the loop: its new state, and the action chosen so far.
unfoldable pub apply_group :
    Bool → ℕ → Bool → FailClass → Option Action → GroupState → GroupState × Option Action
unfolding choose
apply_group line_down now scanning class action g =
    let seen = record g { checked = true; class = some (probed class); checked_at = now } in
    let failing = record seen { ok = false; failures = suc g.failures } in
    let (chosen, act) = choose scanning now failing in
    if is_ok class
    then (record seen { ok = true; failures = 0; unreachable = false }, action)
    else if line_down
    then (record seen { ok = false }, action)
    else if ltb (suc g.failures) group_failure_threshold || not (absent action)
    then (failing, action)
    else (chosen, some act)

abbrev recovers : FailClass → GroupState → Bool
recovers class g = is_ok class && (ltb 0 g.failures || g.unreachable)

-- The loop over the due groups: groups, action, and the groups whose recovery is noted.
pub apply_groups :
    Bool
    → ℕ
    → Bool
    → (Text → FailClass)
    → List Text
    → Option Action
    → List GroupState
    → List GroupState × Option Action
apply_groups line_down now scanning results due action [] = ([], action)
apply_groups line_down now scanning results due action (g ∷ gs) =
    let (g', action') =
      if member g.id due
      then apply_group line_down now scanning (results g.id) action g
      else (g, action) in
    let (rest, last) = apply_groups line_down now scanning results due action' gs in
    (g' ∷ rest, last)

note_recoveries : (Text → FailClass) → List Text → List GroupState → Engine → Engine
note_recoveries results due [] e = e
note_recoveries results due (g ∷ gs) e = note_recoveries results due gs (
    if member g.id due && recovers (results g.id) g
    then record_failure group_recovered none g.id 0 e
    else e)

same_session : ℕ → Option Gateway → Bool
same_session h none = false
same_session h (some g) = g.handle == h

pub may_apply : ℕ → ℕ → Engine → Bool
unfolding same_session
may_apply generation session e =
    current_session generation e && same_session session e.tun && not e.strategy_switching

-- The second locked step.
pub finish_check : ℕ → ℕ → List Text → Round → Measured → Engine → Engine × Option Action
finish_check generation now controls round m e =
    let line_down = line_offline m controls in
    let e1 = mark_line line_down now e in
    let e2 = mark_gateway line_down (quorum m.gateway controls) e1 in
    let e3 = note_recoveries m.groups round.due e.groups e2 in
    let (groups, action) =
      apply_groups line_down now e.desync_scan m.groups round.due none e.groups in
    let e4 = record e3 { groups = groups; group_work = not (absent action) || e.group_work } in
    if may_apply generation round.session e
    then (publish (refresh_network_status e4), action)
    else (e, none)
