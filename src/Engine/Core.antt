-- ===== src/Engine/Core.antt =====
-- The engine's state: the fields of Engine in offveil-core/internal/engine/engine.go that decide
-- what it does. Of a session only its identity and what its Info reports are kept; of a stored
-- configuration only its presence, and the group paths of the gateway's.
use offveil.Prelude.{ℕ, Bool, true, false, ◌&&◌, List, ◌∷◌, Option, Text, ◌==◌}
use offveil.Engine.Signals.{
  GroupPath, Dpi, Layer, State, active, degraded, Component, dns_component, desync_component,
  tunnel_component,
}
use offveil.Engine.Groups.{GroupState, GroupHealth}

-- desync.Info.
pub record HelperInfo : Type 0 where
  pub up : Bool
  pub pid : ℕ

-- tunnel.Info.
pub record GatewayInfo : Type 0 where
  pub up : Bool
  pub healthy : Bool
  pub pid : ℕ
  pub tunnel_available : Bool
  pub paths : List GroupPath

-- A started session: which one it is, and what its Info reports now.
pub record Helper : Type 0 where
  pub handle : ℕ
  pub info : HelperInfo

pub record Gateway : Type 0 where
  pub handle : ℕ
  pub info : GatewayInfo

pub record Classification : Type 0 where
  pub dpi : Dpi
  pub checked_at : ℕ

-- Network reasons.
pub data Reason : Type 0 where
  offline dns_only group_unreachable recovering component_unavailable dns_unavailable : Reason

pub data Coverage : Type 0 where
  dns_coverage web_coverage tunnel_coverage : Coverage

pub data LayerState : Type 0 where
  up down off ready failed : LayerState

-- LayerStatus and NetworkHealth.
pub record NetworkHealth : Type 0 where
  pub mode : Layer
  pub coverage : Coverage
  pub dpi : Option Dpi
  pub dns : LayerState
  pub tcp : LayerState
  pub tunnel : LayerState
  pub groups : List GroupHealth
  pub tcp_desync : Bool
  pub healthy : Bool
  pub checked_at : ℕ
  pub reason : Option Reason

-- The texts of `summary`.
pub data Summary : Type 0 where
  closed connecting broken reconnecting no_connection limited open_summary : Summary

pub data Outcome : Type 0 where
  unknown ok_outcome failed_outcome : Outcome

-- Events of the failure journal. What a provider or an adapter reports of a failed start is not kept.
pub data Event : Type 0 where
  unavailable recovery_exhausted recovered restart_failed cleanup_failed : Event
  group_recovered gateway_controls_failed group_tunneled group_lost group_restored : Event
  tunnel_unavailable group_switch_failed layer_started dns_only_fallback classified : Event
  gateway_rebuilt gateway_restored strategy_trial strategy_scan : Event
  strategy_recovered rollback_failed layer_failed startup_failed : Event
  network_rebind rebind_failed adapter_attach_failed : Event

pub record Failure : Type 0 where
  pub event : Event
  pub component : Option Component
  pub target : Text
  pub attempt : ℕ

-- What lastError reports: a component that is down, or a start that failed.
pub data Fault : Type 0 where
  component_fault : Component → Fault
  startup_fault : Fault

-- The physical interface of a capture.Info: its name and its IPv4 address.
pub record Egress : Type 0 where
  pub name : Text
  pub address : Text

-- The hooks of the cleanup registry. What they close is outside of the engine, so that `called`
-- keeps which of them were called, the newest first.
pub data Hook : Type 0 where
  job_hook doh_hook capture_hook dns_hook layer_hook : Hook

-- recoveryAttempts, a map from the names of the components.
pub record Attempts : Type 0 where
  pub dns : ℕ
  pub desync : ℕ
  pub tunnel : ℕ

abbrev pub attempts_of : Component → Attempts → ℕ
attempts_of dns_component a = a.dns
attempts_of desync_component a = a.desync
attempts_of tunnel_component a = a.tunnel

abbrev pub set_attempts : Component → ℕ → Attempts → Attempts
set_attempts dns_component n a = record a { dns = n }
set_attempts desync_component n a = record a { desync = n }
set_attempts tunnel_component n a = record a { tunnel = n }

pub record Engine : Type 0 where
  pub lifecycle_generation : ℕ
  pub session_generation : ℕ
  pub state : State
  pub protection : Bool
  pub summary : Summary
  pub last_error : Option Fault
  pub outcome : Outcome
  pub dns : Option Bool
  pub des : Option Helper
  pub tun : Option Gateway
  pub dns_info : Option Bool
  pub desync_info : Option HelperInfo
  pub tunnel_info : Option GatewayInfo
  pub dns_configured : Bool
  pub desync_configured : Bool
  pub tunnel_config : Option (List (Text × GroupPath))
  pub strategy_switching : Bool
  pub desync_scan : Bool
  pub recovery_attempts : Attempts
  pub last_recovery : ℕ
  pub last_path_check : ℕ
  pub failure_key : Option (Component × ℕ)
  pub network_check : Option NetworkHealth
  pub network_failures : ℕ
  pub layer : Layer
  pub layer_retries : ℕ
  pub last_layer_try : ℕ
  pub classification : Option Classification
  pub last_classify : ℕ
  pub reclassify : Bool
  pub groups : List GroupState
  pub group_work : Bool
  pub monitor_round : ℕ
  pub cap : Bool
  pub capture_info : Option (Option Egress)
  pub hooks : List Hook
  pub called : List Hook
  pub layer_cleanup : Bool
  pub control_hosts : List Text
  pub expand_seen : List Text
  pub fingerprint : Text
  pub healing : Bool
  pub heal_count : ℕ
  pub last_heal_at : ℕ
  pub journal : List Failure

abbrev pub is_running : State → Bool
is_running active = true
is_running degraded = true
is_running _ = false

-- currentSessionLocked.
abbrev pub current_session : ℕ → Engine → Bool
current_session generation e =
    generation == e.session_generation && (e.protection && is_running e.state)

-- recordFailureLocked: the newest entry is the head.
abbrev pub record_failure : Event → Option Component → Text → ℕ → Engine → Engine
record_failure ev component target attempt e = record e {
  journal =
      record { event = ev; component = component; target = target; attempt = attempt } ∷ e.journal;
}
