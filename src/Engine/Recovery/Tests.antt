-- ===== src/Engine/Recovery/Tests.antt =====
-- Restarts at a sample engine.
use offveil.Prelude.{◌≤◌, ◌≡◌, refl, some}
use offveil.Engine.Signals.{desync_component}
use offveil.Engine.Status.{
  status_update, refresh_network_status, observe_sessions, refresh_if_idle, note_if_running,
  note_required, reason_of, component_reason,
}
use offveil.Engine.Failures.{failed_component, recovery_budget}
use offveil.Engine.Samples.{crippled}
use offveil.Engine.Recovery.{Job, begin_recovery, recover_failed, decide}
use offveil.Engine.Recovery.Budget.{Run, begins, done, step, restarts_bounded}

abbrev job : Job
job = record { component = desync_component; attempt = 0 }

restart_begins : (begin_recovery 3 90 crippled).1 ≡ some job
unfolding begin_recovery recover_failed decide status_update observe_sessions refresh_if_idle
    note_if_running note_required refresh_network_status failed_component reason_of component_reason
restart_begins = refl

one_restart : Run desync_component crippled 1 (begin_recovery 3 90 crippled).0
one_restart = step (begins 3 90 refl refl) (done refl) (rw restart_begins)

restarts_bounded_example : 1 ≤ recovery_budget
restarts_bounded_example =
    restarts_bounded desync_component crippled (begin_recovery 3 90 crippled).0 1 one_restart
