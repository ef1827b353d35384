-- ===== src/Engine/Strategy.antt =====
-- The search for a strategy that opens a failing group: recoverDesyncStrategySession of
-- offveil-core/internal/engine/strategy_recovery.go, section by section. The scan, the new helper and
-- the checks through it run outside the lock and are arguments.
pub mod Ends
mod Tests
use offveil.Prelude.{
  ℕ, ◌+◌, ◌≡◌, Bool, true, false, not, ◌&&◌, ◌||◌, List, [], ◌∷◌, Option, none, some, Text, ◌==◌,
  if◌then◌else◌,
}
use offveil.Engine.Groups.{GroupState, find_group, group_failure_threshold}
use offveil.Engine.Signals.{desync_component}
use offveil.Engine.Core.{
  Engine, Helper, HelperInfo, Gateway, current_session, record_failure, strategy_trial,
  strategy_scan, strategy_recovered, rollback_failed,
}
use offveil.Engine.Status.{refresh_network_status, publish, is_selective}
use offveil.Engine.Failures.{absent}
use offveil.Engine.Repairs.{same_gateway, release, edit}

-- The helper and the gateway that the search must not lose, by their handles.
pub record Search : Type 0 where
  pub helper : ℕ
  pub gateway : ℕ

abbrev pub same_helper : ℕ → Option Helper → Bool
same_helper h none = false
same_helper h (some s) = s.handle == h

abbrev gateway_up : Option Gateway → Bool
gateway_up none = false
gateway_up (some g) = g.info.up

abbrev helper_handle : Option Helper → ℕ
helper_handle none = 0
helper_handle (some h) = h.handle

abbrev gateway_handle : Option Gateway → ℕ
gateway_handle none = 0
gateway_handle (some g) = g.handle

unfoldable pub may_scan : ℕ → Text → Engine → Bool
may_scan generation id e =
    current_session generation e
    && not (absent (find_group id e.groups))
    && not e.strategy_switching
    && is_selective e.layer
    && not e.desync_scan
    && e.desync_configured
    && not (absent e.des)
    && gateway_up e.tun

-- `finish`: the work ends and the status is published.
abbrev pub finish : Engine → Engine
finish e = publish (release e)

abbrev pub fail_group : GroupState → GroupState
fail_group g = record g { failures = group_failure_threshold }

abbrev pub heal_group : GroupState → GroupState
heal_group g = record g { ok = true; failures = 0; unreachable = false }

pub begin_scan : ℕ → Text → Engine → Engine × Option Search
unfolding may_scan
begin_scan generation id e =
    if may_scan generation id e
    then (
      publish (record e { desync_scan = true }),
      some (record { helper = helper_handle e.des; gateway = gateway_handle e.tun }),
    )
    else (release e, none)

-- What the scan found, and whether the old helper then closed.
pub data Found : Type 0 where
  nothing cleanup_fails candidate : Found

unfoldable pub still_same : Search → Engine → Bool
still_same s e =
    same_helper s.helper e.des
    && same_gateway s.gateway e.tun
    && not e.strategy_switching
    && is_selective e.layer

-- The trials and the scan itself go to the journal, under the id of the group.
pub note_trials : Text → List Text → Engine → Engine
note_trials id [] e = record_failure strategy_scan (some desync_component) id 0 e
note_trials id (trial ∷ trials) e =
    note_trials id trials (record_failure strategy_trial (some desync_component) id 0 e)

unfoldable pub apply_found : Text → Found → Engine → Engine × Bool
apply_found id nothing e = (finish (edit id fail_group (record e { desync_scan = false })), false)
apply_found id cleanup_fails e =
    let e1 = publish (record e { strategy_switching = true }) in
    (finish (record e1 { strategy_switching = false }), false)
apply_found id candidate e =
    let e1 = publish (record e { strategy_switching = true }) in (record e1 { des = none }, true)

-- After the scan; `canceled` says that the session's context is done. True asks for a trial of the
-- winner.
pub scan_result : ℕ → Text → Search → Bool → List Text → Found → Engine → Engine × Bool
unfolding still_same apply_found
scan_result generation id s canceled tried found e =
    if not (current_session generation e && e.desync_scan)
    then (finish e, false)
    else if canceled || not (still_same s e)
    then (finish (record e { desync_scan = false }), false)
    else apply_found id found (note_trials id tried e)

abbrev pub abandon : Engine → Engine
abandon e = record e { group_work = false; strategy_switching = false }

unfoldable pub may_adopt : ℕ → Search → Bool → Engine → Bool
may_adopt generation s canceled e =
    current_session generation e && not canceled && same_gateway s.gateway e.tun

-- After the trial: the winner if it opened the canary, the controls and the gateway. True asks for the
-- old strategy to be started again.
pub scan_verified : ℕ → Text → Search → Bool → Option Helper → Engine → Engine × Bool
unfolding may_adopt
scan_verified generation id s canceled winner e =
    if may_adopt generation s canceled e
    then elim winner [
      | none ↦ (e, true)
      | some h ↦ (
        finish (
            refresh_network_status (
              record_failure strategy_recovered (some desync_component) id 0
                (record (edit id heal_group e) {
                  des = some h;
                  desync_info = some h.info;
                  strategy_switching = false;
                  desync_scan = false;
                }))),
        false,
      )
    ]
    else (abandon e, false)

abbrev restored_info : Option Helper → Option HelperInfo → Option HelperInfo
restored_info none old = old
restored_info (some h) old = some h.info

abbrev note_rollback : Bool → Engine → Engine
note_rollback failed e =
    if failed then record_failure rollback_failed (some desync_component) [] 0 e else e

-- After the restart of the old strategy: the helper, if any, and whether the start reported an error.
pub scan_restored : ℕ → Text → Search → Bool → Option Helper → Bool → Engine → Engine
unfolding may_adopt
scan_restored generation id s canceled old failed e =
    if may_adopt generation s canceled e
    then finish (
        refresh_network_status (record (edit id fail_group (note_rollback failed e)) {
          des = old;
          desync_info = restored_info old e.desync_info;
          strategy_switching = false;
          desync_scan = false;
        }))
    else abandon e
