-- ===== src/Engine/Lifecycle/Stop.antt =====
-- The ends of a session: stopLocked, Stop, Repair and CrashCleanup of
-- offveil-core/internal/engine/engine.go.
pub mod Ends
use offveil.Prelude.{
  ℕ, suc, ◌≡◌, Bool, true, false, not, ◌||◌, List, [], Option, none, some, if◌then◌else◌,
}
use offveil.Engine.Signals.{State, stopped, stopping}
use offveil.Engine.Core.{Engine, closed, unknown}
use offveil.Engine.Status.{status_update, publish}
use offveil.Engine.Lifecycle.{StartError, not_running, cancel_session, clean_up}

abbrev pub is_stopped : State → Bool
is_stopped stopped = true
is_stopped _ = false

abbrev pub freeze : Engine → Engine
freeze e = if e.protection then status_update e else e

-- The writes of stopLocked after the hooks ran.
abbrev pub close_all : Engine → Engine
close_all e = record e {
  state = stopped;
  protection = false;
  summary = closed;
  capture_info = none;
  dns_info = none;
  desync_info = none;
  tunnel_info = none;
  cap = false;
  dns = none;
  des = none;
  tun = none;
  expand_seen = [];
  outcome = unknown;
  network_check = none;
}

-- The snapshot that stopLocked publishes before the hooks run.
pub announce_stop : Engine → Engine
announce_stop e = publish (cancel_session (record (freeze e) { state = stopping }))

pub end_session : Engine → Engine
end_session e = publish (status_update (close_all (clean_up (announce_stop e))))

-- stopLocked.
unfoldable pub stop_locked : Engine → Engine × Option StartError
stop_locked e =
    if is_stopped e.state then (status_update e, some not_running) else (end_session e, none)

abbrev pub new_request : Engine → Engine
new_request e = record e { lifecycle_generation = suc e.lifecycle_generation; healing = false }

-- Stop.
unfoldable pub stop : Engine → Engine × Option StartError
stop e = stop_locked (new_request e)

-- Repair: what it does to the engine beside the machine's own repair. stopLocked fails only where
-- nothing runs, which Repair ignores.
pub repair : Engine → Engine
repair e =
    let e1 = new_request e in
    let e2 = if e1.protection || not (is_stopped e1.state) then (stop_locked e1).0 else e1 in
    publish (status_update (publish e2))

-- CrashCleanup.
pub crash_cleanup : Engine → Engine
crash_cleanup e = record (clean_up (cancel_session (new_request e))) {
  des = none;
  tun = none;
  cap = false;
  capture_info = none;
  dns = none;
  dns_info = none;
  desync_info = none;
  tunnel_info = none;
  state = stopped;
  protection = false;
  summary = closed;
}
