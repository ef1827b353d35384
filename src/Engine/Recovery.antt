-- ===== src/Engine/Recovery.antt =====
-- Restarts of failed components: recoverComponent of offveil-core/internal/engine/component_recovery.go. The
-- restart itself runs without the lock; its result is an argument of the second section.
pub mod Budget
mod Tests
use offveil.Prelude.{
  ℕ, suc, ◌+◌, ◌-◌, ◌*◌, ◌≡◌, Bool, true, false, not, ◌&&◌, ◌||◌, List, [], ◌∷◌, Option, none, some,
  leb, ltb, ◌==◌, if◌then◌else◌, second,
}
use offveil.Engine.Signals.{
  Layer, no_layer, Component, dns_component, desync_component, tunnel_component, elapsed,
}
use offveil.Engine.Core.{
  Engine, Helper, Gateway, NetworkHealth, dns_coverage, off, attempts_of, set_attempts,
  current_session, record_failure, unavailable, recovery_exhausted, recovered, restart_failed,
  cleanup_failed,
}
use offveil.Engine.Status.{status_update, refresh_network_status, publish, same_key}
use offveil.Engine.Failures.{failed_component, absent, recovery_budget}

abbrev pub recovery_cooldown : ℕ
recovery_cooldown = 5 * second

-- The failed component and the attempts before this one.
pub record Job : Type 0 where
  pub component : Component
  pub attempt : ℕ

abbrev configured : Component → Engine → Bool
configured dns_component e = e.dns_configured
configured desync_component e = e.desync_configured
configured tunnel_component e = not (absent e.tunnel_config)

abbrev pub note_key : Component → ℕ → Engine → Engine
note_key c pid e =
    if same_key e.failure_key c pid
    then e
    else record_failure unavailable (some c) [] 0 (record e { failure_key = some (c, pid) })

-- `e.recoveryAttempts[component] = n`.
abbrev pub put_attempts : Component → ℕ → Engine → Engine
put_attempts c n e = record e { recovery_attempts = set_attempts c n e.recovery_attempts }

-- The budget is used up: noted once.
exhaust : Component → ℕ → Engine → Engine
exhaust c attempt e =
    if attempt == recovery_budget
    then put_attempts c (suc attempt) (record_failure recovery_exhausted (some c) [] attempt e)
    else e

begin_restart : Component → ℕ → ℕ → Engine → Engine
begin_restart c attempt now e =
    publish
      (put_attempts c (suc attempt) (record e { last_recovery = now; strategy_switching = true }))

decide : ℕ → Component → ℕ → Engine → Engine × Option Job
decide now c attempt e =
    if leb recovery_budget attempt
    then (exhaust c attempt e, none)
    else if not (elapsed recovery_cooldown e.last_recovery now)
    then (e, none)
    else if not (configured c e)
    then (e, none)
    else (begin_restart c attempt now e, some (record { component = c; attempt = attempt }))

recover_failed : ℕ → Option (Component × ℕ) → Engine → Engine × Option Job
recover_failed now none e = (e, none)
recover_failed now (some (c, pid)) e =
    decide now c (attempts_of c e.recovery_attempts) (note_key c pid e)

-- First section.
pub begin_recovery : ℕ → ℕ → Engine → Engine × Option Job
begin_recovery generation now e =
    let e1 = status_update e in
    if current_session generation e && not e.strategy_switching
    then recover_failed now (failed_component e1) e1
    else (e, none)

-- How a restart ended: the old session did not close, the new one did not start, or it did, perhaps
-- without a session.
pub data Restart : Type 0 where
  cleanup_fails start_fails no_session : Restart
  dns_session : Bool → Restart
  helper_session : Helper → Restart
  gateway_session : Gateway → Restart

abbrev adopt_gateway : ℕ → Gateway → Engine → Engine
adopt_gateway now g e =
    let network : NetworkHealth = record {
      mode = no_layer;
      coverage = dns_coverage;
      dpi = none;
      dns = off;
      tcp = off;
      tunnel = off;
      groups = [];
      tcp_desync = false;
      healthy = g.info.healthy;
      checked_at = now;
      reason = none;
    } in
    record e {
      tun = some g;
      network_check = some network;
      network_failures = if g.info.healthy then 0 else e.network_failures;
    }

-- The new session is adopted; true if it works.
adopt : ℕ → Restart → Engine → Engine × Bool
adopt now (dns_session stub_up) e = (record e { dns = some stub_up }, stub_up)
adopt now (helper_session h) e = (record e { des = some h }, h.info.up)
adopt now (gateway_session g) e = (adopt_gateway now g e, g.info.up)
adopt now r e = (e, false)

succeed : Job → Engine → Engine
succeed job e =
    record_failure recovered (some job.component) [] (suc job.attempt)
      (refresh_network_status (status_update (record e { failure_key = none })))

give_up : Job → Restart → Engine → Engine
give_up job cleanup_fails e =
    record_failure cleanup_failed (some job.component) [] (suc job.attempt)
      (put_attempts job.component recovery_budget e)
give_up job r e = record_failure restart_failed (some job.component) [] (suc job.attempt) e

settle_restart : Job → Restart → Engine × Bool → Engine
settle_restart job r (e, true) = succeed job e
settle_restart job r (e, false) = give_up job r e

-- Second section.
pub finish_recovery : ℕ → ℕ → Job → Restart → Engine → Engine
finish_recovery generation now job r e =
    if current_session generation e
    then publish (settle_restart job r (adopt now r (record e { strategy_switching = false })))
    else e
