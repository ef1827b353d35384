-- ===== src/Engine/Heal.antt =====
-- Healing after a network change or a resume: offveil-core/internal/engine/heal.go and network_identity.go. The lookup of
-- the network, the snapshot of the interfaces and a restarted helper are arguments.
pub mod Requests
mod Tests
use offveil.Prelude.{
  ℕ, suc, ◌+◌, ◌-◌, ◌*◌, ◌≡◌, Bool, true, false, not, ◌&&◌, ◌||◌, List, [], ◌∷◌, Option, none, some,
  Text, codes, text_eq, is_empty, ltb, ◌==◌, map, if◌then◌else◌, second, millisecond,
}
use offveil.Engine.Signals.{State, stopped, desync_component}
use offveil.Engine.Groups.{GroupState}
use offveil.Engine.Core.{
  Engine, Egress, Helper, current_session, record_failure, network_rebind, rebind_failed,
}
use offveil.Engine.Status.{refresh_network_status, publish, is_selective}
use offveil.Engine.Failures.{absent}
use offveil.Engine.Lifecycle.{Startup, start_locked}
use offveil.Engine.Lifecycle.Stop.{stop_locked, is_stopped}

abbrev pub heal_min_interval : ℕ
heal_min_interval = 8 * second

abbrev pub heal_settle_delay : ℕ
heal_settle_delay = 1500 * millisecond

pub data HealReason : Type 0 where
  network_change power_resume other_reason : HealReason

abbrev is_resume : HealReason → Bool
is_resume power_resume = true
is_resume _ = false

-- physicalNetworkChangedLocked.
unfoldable pub is_known : Text → Bool
is_known fp = not (is_empty fp || text_eq fp (codes "offline") || text_eq fp (codes "unknown"))

unfoldable pub physical_network_changed : Text → Engine → Bool
unfolding is_known
physical_network_changed next e =
    is_known e.fingerprint && is_known next && not (text_eq e.fingerprint next)

-- The session and the request are still the ones that the heal began with.
unfoldable pub is_wanted : ℕ → ℕ → Engine → Bool
is_wanted generation session e = generation == e.lifecycle_generation && current_session session e

-- selfHeal, first section: how long to wait, the cooldown of the last heal included.
unfoldable pub heal_delay : ℕ → Engine → ℕ
heal_delay now e =
    let remaining = heal_min_interval - (now - e.last_heal_at) in
    if not (e.last_heal_at == 0) && ltb heal_settle_delay remaining
    then remaining
    else heal_settle_delay

unfoldable pub begin_heal : ℕ → ℕ → ℕ → Engine → Option ℕ
unfolding is_wanted heal_delay
begin_heal generation session now e =
    if is_wanted generation session e then some (heal_delay now e) else none

-- What softRebindLocked meets: the physical interface of a new snapshot, if there is one, and the
-- helper if it starts again.
pub record Rebind : Type 0 where
  pub snapshot : Option Egress
  pub helper : Option Helper

abbrev forget : GroupState → GroupState
forget g = record g { failures = 0; unreachable = false }

-- The function `rebind` of softRebindLocked.
unfoldable pub adopt_network : Text → ℕ → Engine → Engine
adopt_network fp now e = publish (
    refresh_network_status (record (record_failure network_rebind none [] 0 e) {
      fingerprint = fp;
      reclassify = true;
      last_path_check = 0;
      groups = map forget e.groups;
      last_heal_at = now;
      heal_count = suc e.heal_count;
    }))

-- The interface of the capture if the snapshot has the same one.
unfoldable pub same_interface : Option (Option Egress) → Option Egress → Option (Egress × Egress)
same_interface (some (some old)) (some new) =
    if text_eq new.name old.name then some (old, new) else none
same_interface _ _ = none

unfoldable pub can_rebind : Engine → Bool
can_rebind e = e.desync_configured && not (absent e.des)

-- The helper is started again where the address changed.
unfoldable pub rebind_helper : Egress × Egress → Option Helper → Engine → Engine
rebind_helper (old, new) started e = if text_eq new.address old.address then e else elim started [
  | none ↦ record_failure rebind_failed (some desync_component) [] 0 (record e { des = none })
  | some h ↦ record e { des = some h; desync_info = some h.info }
]

abbrev pub move_interface : Egress × Egress → Option Helper → Engine → Engine
move_interface (old, new) started e = record (rebind_helper (old, new) started e) {
  capture_info = some (some new);
}

-- softRebindLocked in the TCP layer.
abbrev pub rebind_layer :
    Text → ℕ → Option (Egress × Egress) → Option Helper → Engine → Option Engine
rebind_layer fp now none started e = none
rebind_layer fp now (some pair) started e =
    if can_rebind e then some (adopt_network fp now (move_interface pair started e)) else none

-- softRebindLocked; none asks for a full rebuild.
unfoldable pub soft_rebind : Text → ℕ → Rebind → Engine → Option Engine
soft_rebind fp now r e =
    if not (is_selective e.layer)
    then some (adopt_network fp now e)
    else rebind_layer fp now (same_interface e.capture_info r.snapshot) r.helper e

-- What follows a heal: nothing, a round of the monitor, or a start after the stop that left a session.
pub data HealNext : Type 0 where
  nothing monitor_round : HealNext
  restart : ℕ → HealNext

unfoldable pub rebuild_all : Engine → Engine × HealNext
rebuild_all e =
    let (f, error) =
      stop_locked (record (record_failure network_rebind none [] 0 e) { healing = true }) in
    elim error [
      | none ↦ (f, restart f.session_generation)
      | some x ↦ (record f { healing = false }, nothing)
    ]

abbrev rebound : Option Engine → Engine → Engine × HealNext
rebound none e = rebuild_all e
rebound (some f) e = (f, monitor_round)

-- selfHeal, after the network was looked up.
unfoldable pub decide_heal : ℕ → ℕ → HealReason → Text → ℕ → Rebind → Engine → Engine × HealNext
unfolding is_wanted
decide_heal generation session reason fp now r e =
    if not (is_wanted generation session e)
    then (e, nothing)
    else if not (is_resume reason || physical_network_changed fp e)
    then (e, nothing)
    else rebound (soft_rebind fp now r e) e

abbrev heal_started : ℕ → Startup → Engine → Engine
heal_started now w e = record (start_locked now (codes "auto") w e).0 {
  last_heal_at = now;
  heal_count = suc e.heal_count;
}

-- selfHeal, last section: a start, unless a request or another session came in between.
unfoldable pub restart_heal : ℕ → ℕ → ℕ → Startup → Engine → Engine
restart_heal generation session now w e =
    let e1 =
      if generation == e.lifecycle_generation
        && (session == e.session_generation && is_stopped e.state)
      then heal_started now w e
      else e in
    publish (record e1 { healing = false })
