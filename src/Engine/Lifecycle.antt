-- ===== src/Engine/Lifecycle.antt =====
-- Start, stop, repair and crash cleanup: startLocked of offveil-core/internal/engine/startup.go, Start, Stop, Repair
-- and CrashCleanup of engine.go, session.go, and the hooks of internal/cleanup. What the machine
-- answers while a session starts is an argument.
pub mod Stop
pub mod Sessions
pub mod Stages
pub mod Starting
mod Tests
use offveil.Prelude.{
  ℕ, suc, ◌+◌, ◌≡◌, Bool, true, false, not, ◌&&◌, ◌||◌, List, [], ◌∷◌, Option, none, some, Text,
  codes, text_eq, is_empty, if◌then◌else◌,
}
use offveil.Ruleset.Document.{Document}
use offveil.Ruleset.Queries.{probe_hosts, default_control_hosts}
use offveil.Engine.Signals.{
  Dpi, dpi_none, Layer, no_layer, dns_layer, State, stopped, starting, active, degraded, stopping,
}
use offveil.Engine.Groups.{init_groups}
use offveil.Engine.Core.{
  Engine, Classification, Egress, Hook, job_hook, doh_hook, capture_hook, dns_hook, layer_hook,
  startup_fault, startup_failed, closed, connecting, unknown, record_failure,
}
use offveil.Engine.Status.{refresh_network_status, status_update, publish}
use offveil.Engine.Layers.{
  Attempt, Measurement, stop_layer, start_layer, fall_back, apply_classification, same_dpi,
}

-- cancelSessionLocked.
abbrev pub cancel_session : Engine → Engine
cancel_session e = record e {
  session_generation = suc e.session_generation;
  strategy_switching = false;
  control_hosts = [];
  desync_scan = false;
  network_check = none;
  network_failures = 0;
  last_path_check = 0;
}

-- Registry.Register and Registry.Run: the newest hook is the head, and runs first.
abbrev pub register : Hook → Engine → Engine
register h e = record e { hooks = h ∷ e.hooks }

-- A hook is called. Only the one of the layer writes the engine's state.
abbrev pub run_hook : Hook → Engine → Engine
run_hook layer_hook e = stop_layer (record e { called = layer_hook ∷ e.called })
run_hook h e = record e { called = h ∷ e.called }

pub run_hooks : List Hook → Engine → Engine
run_hooks [] e = e
run_hooks (h ∷ hooks) e = run_hooks hooks (run_hook h e)

-- Run and Clear.
pub clean_up : Engine → Engine
clean_up e = record (run_hooks e.hooks e) { hooks = [] }

-- The errors of a request.
pub data StartError : Type 0 where
  bad_request already_running busy not_running engine_failed tun_failed privilege_missing :
      StartError

pub data Captured : Type 0 where
  capture_denied capture_fails : Captured
  captured : Option Egress → Captured

-- What the machine answers during a start.
pub record Startup : Type 0 where
  pub job_made : Bool
  pub document : Document
  pub capture : Captured
  pub resolver : Option Bool
  pub fingerprint : Text
  pub forced : Bool
  pub measurement : Measurement
  pub attempt : Attempt
  pub canceled : Bool

-- The resets at the head of startLocked, beginSessionLocked included.
abbrev pub reset : Engine → Engine
reset e = record (cancel_session (record e { state = starting; summary = connecting })) {
  last_error = none;
  failure_key = none;
  recovery_attempts = record { dns = 0; desync = 0; tunnel = 0 };
  last_recovery = 0;
  dns_configured = false;
  desync_configured = false;
  tunnel_config = none;
  capture_info = none;
  dns_info = none;
  desync_info = none;
  tunnel_info = none;
  layer = no_layer;
  layer_retries = 0;
  layer_cleanup = false;
  classification = none;
  last_classify = 0;
  reclassify = false;
  group_work = false;
  monitor_round = 0;
  outcome = unknown;
}

-- `fail` of startLocked: the engine is off, the hooks run, and no session is left.
pub mark_failed : Engine → Engine
mark_failed e = record_failure startup_failed none [] 0 (record e {
  last_error = some startup_fault;
  state = stopped;
  summary = closed;
  protection = false;
})

pub wipe : Engine → Engine
wipe e = record (stop_layer e) {
  cap = false;
  dns = none;
  capture_info = none;
  dns_info = none;
  dns_configured = false;
}

pub fail_start : Engine → Engine
fail_start e = status_update (wipe (clean_up (status_update (mark_failed e))))

abbrev controls_or_default : List Text → List Text
controls_or_default [] = default_control_hosts
controls_or_default (h ∷ hosts) = h ∷ hosts

-- The ruleset and its groups.
pub load_rules : Document → Engine → Engine
load_rules doc e = register doh_hook (record e {
  control_hosts = controls_or_default (probe_hosts doc);
  groups = init_groups doc.canaries;
  expand_seen = [];
})

abbrev pub unfiltered : Option Classification → Bool
unfiltered none = false
unfiltered (some c) = same_dpi c.dpi dpi_none

abbrev pub layer_settled : Bool → Engine × Bool → Engine × Option StartError
layer_settled canceled (e, up) =
    if up
    then (e, none)
    else if canceled
    then (fail_start e, some engine_failed)
    else (fall_back e, none)

-- A network that filters gets the TCP layer, or the fallback.
pub enter_layer : ℕ → Startup → Engine → Engine × Option StartError
enter_layer now w e =
    if unfiltered e.classification
    then (record e { layer = dns_layer }, none)
    else layer_settled w.canceled (start_layer publish now w.attempt e)

pub start_resolver : ℕ → Startup → Option Bool → Engine → Engine × Option StartError
start_resolver now w none e = (fail_start e, some engine_failed)
start_resolver now w (some up) e =
    let e1 = publish (register dns_hook (record e { dns = some up; dns_info = some up })) in
    let e2 = publish (record e1 { fingerprint = w.fingerprint }) in
    enter_layer now w (apply_classification w.forced now w.measurement e2)

pub start_capture : ℕ → Startup → Captured → Engine → Engine × Option StartError
start_capture now w capture_denied e = (fail_start e, some privilege_missing)
start_capture now w capture_fails e = (fail_start e, some tun_failed)
start_capture now w (captured egress) e = start_resolver now w w.resolver (
    publish (
      register capture_hook
        (record e { cap = true; capture_info = some egress; dns_configured = true })))

pub start_stages : ℕ → Startup → Engine → Engine × Option StartError
start_stages now w e =
    if w.job_made
    then start_capture now w w.capture
        (publish (load_rules w.document (publish (register job_hook e))))
    else (fail_start e, some engine_failed)

-- The end of startLocked with its deferred calls.
pub end_start : Engine × Option StartError → Engine × Option StartError
end_start (e, some error) = (publish (cancel_session e), some error)
end_start (e, none) =
    let e1 = refresh_network_status (record e { protection = true; state = active }) in
    (publish (status_update (status_update e1)), none)

abbrev is_auto : Text → Bool
is_auto mode = is_empty mode || text_eq mode (codes "auto")

abbrev start_fresh : ℕ → Startup → Engine → Engine × Option StartError
start_fresh now w e = end_start (start_stages now w (publish (reset e)))

-- startLocked.
pub start_locked : ℕ → Text → Startup → Engine → Engine × Option StartError
start_locked now mode w e = if not (is_auto mode) then (e, some bad_request) else elim e.state [
  | active ↦ (status_update e, some already_running)
  | starting ↦ (status_update e, some already_running)
  | degraded ↦ (status_update e, some already_running)
  | stopping ↦ (e, some busy)
  | stopped ↦ start_fresh now w e
]

-- Start.
pub start : ℕ → Text → Startup → Engine → Engine × Option StartError
start now mode w e =
    start_locked now mode w
      (record e { lifecycle_generation = suc e.lifecycle_generation; healing = false })
