-- ===== src/Engine/Reprobe.antt =====
-- The silent probe of hosts whose decision has expired: silentReprobeSession of
-- offveil-core/internal/engine/engine.go, section by section. The lookup of the network and the report of the probe
-- are arguments of the section that follows them; the policy cache is a state of its own.
pub mod Refreshed
mod Tests
use offveil.Prelude.{
  ℕ, Bool, true, false, not, Option, none, some, List, [], ◌∷◌, Text, codes, is_empty,
  if◌then◌else◌,
}
use offveil.Netinfo.{Network}
use offveil.Engine.Core.{Engine, current_session}
use offveil.Engine.Heal.{HealReason, network_change, physical_network_changed}
use offveil.Policy.Store.{Store, expired_domains, observe_network, put, put_locked}
use offveil.Probe.{
  Class, class_open, class_dns_poison, class_dpi_reset, class_ip_drop, class_timeout,
  class_throttle_suspect, no_class, path_for,
}
use offveil.Probe.Target.{ProbeResult}

-- The text of a Class.
abbrev pub class_text : Class → Text
class_text class_open = codes "open"
class_text class_dns_poison = codes "dns_poison"
class_text class_dpi_reset = codes "dpi_reset"
class_text class_ip_drop = codes "ip_drop"
class_text class_timeout = codes "timeout"
class_text class_throttle_suspect = codes "throttle_suspect"
class_text no_class = []

-- First section: the decisions that have expired leave the cache, and their hosts are the ones to probe; none
-- where the session has ended.
unfoldable pub begin_reprobe : ℕ → ℕ → Engine → Store → Store × Option (List Text)
begin_reprobe generation now e p =
    let (p', expired) = expired_domains now p in
    if current_session generation e then (p', some expired) else (p, none)

-- What follows the second section: nothing, the request of a heal for a start and a session, or the probe.
pub data ReprobeNext : Type 0 where
  ended : ReprobeNext
  request_heal : HealReason → ℕ → ℕ → ReprobeNext
  probe_hosts : List Text → ReprobeNext

-- Second section, after the lookup of the network. The request of a heal also resets the DNS cache.
unfoldable pub observe_reprobe : ℕ → Network → List Text → Engine → Store → Store × ReprobeNext
unfolding observe_network physical_network_changed
observe_reprobe generation net hosts e p =
    let (p', changed) = observe_network net p in
    if not (current_session generation e)
    then (p, ended)
    else if physical_network_changed net.fingerprint e
    then (p', request_heal network_change e.lifecycle_generation e.session_generation)
    else if is_empty hosts
    then (p', ended)
    else (p', probe_hosts hosts)

-- The path of a result.
abbrev pub path_of : ProbeResult → Text
path_of r = if is_empty r.path then path_for r.class else r.path

abbrev pub put_results : ℕ → List ProbeResult → Store → Store
put_results now [] p = p
put_results now (r ∷ rs) p =
    put_results now rs (put r.target (path_of r) (class_text r.class) (codes "probe:ttl") now p)

-- Last section, after the probe.
unfoldable pub land_reprobe : ℕ → ℕ → List ProbeResult → Engine → Store → Store
unfolding put_locked
land_reprobe generation now results e p =
    if current_session generation e then put_results now results p else p

abbrev pub probed :
    ℕ → ℕ → (List Text → List ProbeResult) → Engine → Store × ReprobeNext → Store × ReprobeNext
probed generation now probe e (p, probe_hosts hosts) =
    (land_reprobe generation now (probe hosts) e p, probe_hosts hosts)
probed generation now probe e (p, next) = (p, next)

abbrev pub after_lookup :
    ℕ
    → ℕ
    → Network
    → (List Text → List ProbeResult)
    → Engine
    → Engine
    → Store × Option (List Text)
    → Store × ReprobeNext
after_lookup generation later net probe e2 e3 (p, none) = (p, ended)
after_lookup generation later net probe e2 e3 (p, some hosts) =
    probed generation later probe e3 (observe_reprobe generation net hosts e2 p)

-- silentReprobeSession; the engine is what each section finds, and what was requested is kept.
unfoldable pub silent_reprobe_session :
    ℕ
    → ℕ
    → ℕ
    → Network
    → (List Text → List ProbeResult)
    → Engine
    → Engine
    → Engine
    → Store
    → Store × ReprobeNext
unfolding begin_reprobe observe_reprobe land_reprobe
silent_reprobe_session generation now later net probe e1 e2 e3 p =
    after_lookup generation later net probe e2 e3 (begin_reprobe generation now e1 p)
