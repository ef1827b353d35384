-- ===== src/Engine/Repairs.antt =====
-- The repairs that a monitor round starts: escalateGroupSession and rebuildGatewayLocked of
-- offveil-core/internal/engine/groups.go, revertGroupSession of network_health.go. Each function is one locked
-- section; what the unlocked code between two of them found out is an argument.
pub mod Sections
mod Tests
use offveil.Prelude.{
  ℕ, ◌+◌, ◌≡◌, Bool, true, false, not, ◌&&◌, ◌||◌, List, [], ◌∷◌, Option, none, some, Text, text_eq,
  ◌==◌, if◌then◌else◌,
}
use offveil.Engine.Signals.{
  FailClass, is_ok, probed, GroupPath, desync_path, tunnel_path, Component, tunnel_component,
}
use offveil.Engine.Groups.{GroupState, find_group, update_group, group_paths}
use offveil.Engine.Core.{
  Engine, Gateway, current_session, record_failure, group_tunneled, group_lost, group_restored,
  tunnel_unavailable, group_switch_failed, gateway_rebuilt, gateway_restored,
}
use offveil.Engine.Status.{refresh_network_status, publish, is_selective}
use offveil.Engine.Failures.{absent}

-- `e.tun == session`.
abbrev pub same_gateway : ℕ → Option Gateway → Bool
same_gateway h none = false
same_gateway h (some g) = g.handle == h

-- `e.currentSessionLocked(generation) && e.tun == session`.
pub ours : ℕ → ℕ → Engine → Bool
ours generation session e = current_session generation e && same_gateway session e.tun

-- The gateway that a repair works on, and whether it has a tunnel.
pub record Target : Type 0 where
  pub session : ℕ
  pub has_tunnel : Bool

abbrev pub target_of : Gateway → Target
target_of g = record { session = g.handle; has_tunnel = g.info.tunnel_available }

-- `e.groupWork = false`.
abbrev pub release : Engine → Engine
release e = record e { group_work = false }

abbrev pub edit : Text → (GroupState → GroupState) → Engine → Engine
edit id f e = record e { groups = update_group id f e.groups }

abbrev pub escalate_now : ℕ → GroupState → GroupState
escalate_now now g = record g { last_escalation = now }

abbrev pub may_escalate : ℕ → Text → Engine → Bool
may_escalate generation id e =
    current_session generation e && not (absent (find_group id e.groups)) && is_selective e.layer

-- escalateGroupSession, first section.
pub begin_escalate : ℕ → ℕ → Text → Engine → Engine × Option Target
begin_escalate generation now id e = elim e.tun [
  | none ↦ (release e, none)
  | some g ↦
      if may_escalate generation id e
      then (edit id (escalate_now now) e, some (target_of g))
      else (release e, none)
]

abbrev pub lose : GroupState → GroupState
lose g = record g { unreachable = true }

abbrev pub settle : Engine → Engine
settle e = publish (refresh_network_status e)

-- No provider could be prepared.
pub prepare_failed : ℕ → ℕ → Text → Engine → Engine
prepare_failed generation session id e =
    if ours generation session e
    then settle
        (edit id lose (release (record_failure tunnel_unavailable (some tunnel_component) id 0 e)))
    else release e

abbrev with_path : Text → GroupPath → List (Text × GroupPath) → List (Text × GroupPath)
with_path id p [] = []
with_path id p ((k, q) ∷ ps) = if text_eq k id then (k, p) ∷ ps else (k, q) ∷ with_path id p ps

-- rebuildGatewayLocked: the gateway with the new configuration if it attaches, else the previous
-- one if that attaches again.
pub data Rebuilt : Type 0 where
  started restored : Gateway → Rebuilt
  lost : Rebuilt

pub rebuild : List (Text × GroupPath) → Rebuilt → Engine → Engine × Bool
rebuild next (started g) e =
    let e1 = publish (record e { strategy_switching = true }) in
    (
      record_failure gateway_rebuilt (some tunnel_component) [] 0 (record e1 {
        tun = some g;
        tunnel_config = some next;
        tunnel_info = some g.info;
        strategy_switching = false;
      }),
      true,
    )
rebuild next (restored g) e =
    let e1 = publish (record e { strategy_switching = true }) in
    (
      record_failure gateway_restored (some tunnel_component) [] 0
          (record e1 { tun = some g; tunnel_info = some g.info; strategy_switching = false }),
      false,
    )
rebuild next lost e =
    let e1 = publish (record e { strategy_switching = true }) in
    (record e1 { tun = none; strategy_switching = false }, false)

abbrev to_path : GroupPath → GroupState → GroupState
to_path p g = record g { path = p }

-- A provider is ready: the gateway is rebuilt with the group on the tunnel.
pub prepared : ℕ → ℕ → Text → Rebuilt → Engine → Engine × Bool
unfolding rebuild
prepared generation session id rebuilt e =
    let next = with_path id tunnel_path (group_paths e.groups) in
    let (e1, done) = rebuild next rebuilt e in
    if ours generation session e
    then (if done
        then (edit id (to_path tunnel_path) e1, true)
        else (settle (edit id lose (release e1)), false))
    else (release e, false)

-- The running gateway refused to switch the group's selector. This section does not look at the
-- session; `held` says whether the engine still has the group that the repair began with, since a new
-- session makes groups of its own.
pub switch_failed : Bool → Text → Engine → Engine
switch_failed held id e =
    let e1 = release (record_failure group_switch_failed (some tunnel_component) id 0 e) in
    refresh_network_status (if held then edit id lose e1 else e1)

-- `e.tunnelConfig.GroupPaths = e.groupPathsLocked()`.
abbrev store_paths : Engine → Engine
store_paths e = elim e.tunnel_config [
  | none ↦ e
  | some old ↦ record e { tunnel_config = some (group_paths e.groups) }
]

abbrev pub arrive : FailClass → ℕ → GroupState → GroupState
arrive class now g =
    if is_ok class
    then record g {
      path = tunnel_path;
      class = some (probed class);
      checked_at = now;
      ok = true;
      failures = 0;
      unreachable = false;
    }
    else record g {
      path = tunnel_path;
      class = some (probed class);
      checked_at = now;
      ok = false;
      unreachable = true;
    }

pub deliver : Text → FailClass → ℕ → Engine → Engine
deliver id class now e =
    record_failure (if is_ok class then group_tunneled else group_lost) (some tunnel_component) id 0
      (store_paths (edit id (arrive class now) e))

-- escalateGroupSession, last section: the probe through the tunnel decides.
pub finish_escalate : ℕ → ℕ → ℕ → Text → FailClass → Engine → Engine
finish_escalate generation now session id class e =
    if ours generation session (release e)
    then settle (deliver id class now (release e))
    else release e

-- revertGroupSession, first section.
pub begin_revert : ℕ → ℕ → Text → Engine → Engine × Option Target
begin_revert generation now id e = elim e.tun [
  | none ↦ (release e, none)
  | some g ↦
      if current_session generation e && not (absent (find_group id e.groups))
      then (edit id (escalate_now now) e, some (target_of g))
      else (release e, none)
]

abbrev pub come_back : GroupState → GroupState
come_back g = record g { path = desync_path; ok = true; failures = 0; unreachable = false }

pub bring_back : Text → Bool → Engine → Engine
bring_back id good e = store_paths (
    record_failure (if good then group_restored else group_lost) (some tunnel_component) id 0
      (edit id (if good then come_back else lose) e))

-- revertGroupSession, last section: whether the selector switched, and the probe after it.
pub finish_revert : ℕ → ℕ → Text → Bool → FailClass → Engine → Engine
finish_revert generation session id switched class e =
    if ours generation session (release e)
    then settle (bring_back id (switched && is_ok class) (release e))
    else release e
