-- ===== src/Engine/Status.antt =====
-- The published health: offveil-core/internal/engine/network_health.go (refreshNetworkStatusLocked and what it calls) and the
-- part of statusLocked in engine.go that changes the state.
pub mod Frame
pub mod Reasons
mod Tests
use offveil.Prelude.{
  ℕ, ◌+◌, ◌≡◌, Bool, true, false, not, ◌&&◌, ◌||◌, List, [], ◌∷◌, Option, none, some, Text, leb,
  ◌==◌, if◌then◌else◌, any,
}
use offveil.Engine.Signals.{
  GroupPath, desync_path, tunnel_path, Dpi, dpi_offline, Layer, no_layer, dns_layer,
  selective_layer, fallback_layer, State, active, degraded, Component, dns_component,
  desync_component, tunnel_component,
}
use offveil.Engine.Groups.{group_health, persistent_unreachable}
use offveil.Engine.Failures.{
  stub_down, recovery_budget, absent, helper_failure, gateway_failure, failed_component,
  component_required, recovery_exhausted,
}
use offveil.Engine.Core.{
  Fault, component_fault, Engine, Helper, Gateway, HelperInfo, GatewayInfo, Classification,
  NetworkHealth, Reason, offline, dns_only, group_unreachable, recovering, component_unavailable,
  dns_unavailable, Coverage, dns_coverage, web_coverage, tunnel_coverage, LayerState, up, down, off,
  ready, failed, Summary, broken, reconnecting, no_connection, limited, open_summary, Outcome,
  unknown, ok_outcome, failed_outcome, unavailable, attempts_of, is_running, record_failure,
}

abbrev pub is_offline : Option Classification → Bool
is_offline none = false
is_offline (some c) = elim c.dpi [ dpi_offline ↦ true | _ ↦ false ]

abbrev is_tunnel : GroupPath → Bool
is_tunnel tunnel_path = true
is_tunnel desync_path = false

abbrev pub is_fallback : Layer → Bool
is_fallback fallback_layer = true
is_fallback _ = false

-- The switch of refreshNetworkStatusLocked without its writes.
unfoldable pub later_reason : Engine → Option Reason
later_reason e =
    if is_offline e.classification
    then some offline
    else if is_fallback e.layer
    then some dns_only
    else if persistent_unreachable e.groups
    then some group_unreachable
    else none

unfoldable pub component_reason : Engine → Component → Option Reason
component_reason e dns_component = some dns_unavailable
component_reason e c =
    if component_required e.layer c
    then (if recovery_exhausted c e then some component_unavailable else some recovering)
    else later_reason e

unfoldable pub reason_of : Engine → Option Reason
reason_of e = elim (failed_component e) [
  | none ↦ later_reason e
  | some (c, pid) ↦ component_reason e c
]

abbrev broken_state : Option Reason → State
broken_state (some dns_unavailable) = degraded
broken_state (some component_unavailable) = degraded
broken_state _ = active

abbrev summary_of : Option Reason → Summary
summary_of none = open_summary
summary_of (some dns_unavailable) = broken
summary_of (some component_unavailable) = broken
summary_of (some recovering) = reconnecting
summary_of (some offline) = no_connection
summary_of (some dns_only) = limited
summary_of (some group_unreachable) = limited

-- The outcome of both transport targets.
abbrev outcome_of : Option Reason → Outcome
outcome_of none = ok_outcome
outcome_of (some dns_unavailable) = failed_outcome
outcome_of (some component_unavailable) = failed_outcome
outcome_of (some _) = unknown

abbrev error_of : Option Reason → Option (Component × ℕ) → Option Fault
error_of (some dns_unavailable) (some (c, pid)) = some (component_fault c)
error_of (some component_unavailable) (some (c, pid)) = some (component_fault c)
error_of _ _ = none

abbrev gateway_tcp : Option Gateway → LayerState
gateway_tcp none = down
gateway_tcp (some g) = if g.info.up then up else down

abbrev gateway_tunnel : Option Gateway → LayerState
gateway_tunnel none = off
gateway_tunnel (some g) =
    if g.info.tunnel_available then (if any is_tunnel g.info.paths then up else ready) else off

tcp_state : Layer → Option Gateway → LayerState
tcp_state selective_layer tun = gateway_tcp tun
tcp_state fallback_layer tun = failed
tcp_state _ tun = off

tunnel_state : Layer → Option Gateway → LayerState
tunnel_state selective_layer tun = gateway_tunnel tun
tunnel_state _ tun = off

coverage_of : Layer → Option Gateway → Coverage
coverage_of selective_layer tun = elim (gateway_tunnel tun) [
  | up ↦ tunnel_coverage
  | _ ↦ web_coverage
]
coverage_of _ tun = dns_coverage

-- `e.tunnelInfo = e.tun.Info()`, which the selective layer reads anew.
fresh_gateway : Layer → Option Gateway → Option GatewayInfo → Option GatewayInfo
fresh_gateway selective_layer (some g) old = some g.info
fresh_gateway layer tun old = old

unfoldable pub observe_gateway : Engine → Engine
unfolding fresh_gateway
observe_gateway e = record e { tunnel_info = fresh_gateway e.layer e.tun e.tunnel_info }

abbrev checked_at : Option Classification → ℕ → ℕ
checked_at none path_check = path_check
checked_at (some c) path_check = if path_check == 0 then c.checked_at else path_check

abbrev pub is_selective : Layer → Bool
is_selective selective_layer = true
is_selective _ = false

abbrev no_reason : Option Reason → Bool
no_reason none = true
no_reason (some r) = false

-- refreshNetworkStatusLocked.
unfoldable pub refresh_network_status : Engine → Engine
unfolding tcp_state tunnel_state coverage_of observe_gateway
refresh_network_status e =
    let e1 = observe_gateway e in
    let reason = reason_of e1 in
    let network : NetworkHealth = record {
      mode = e.layer;
      coverage = coverage_of e.layer e.tun;
      dpi = elim e.classification [ none ↦ none | some c ↦ some c.dpi ];
      dns = if stub_down e.dns_info then down else up;
      tcp = tcp_state e.layer e.tun;
      tunnel = tunnel_state e.layer e.tun;
      groups = group_health e.layer e.groups;
      tcp_desync = is_selective e.layer;
      healthy = no_reason reason;
      checked_at = checked_at e.classification e.last_path_check;
      reason = reason;
    } in
    if not e.protection then e else record e1 {
      network_check = some network;
      state = broken_state reason;
      summary = summary_of reason;
      last_error = error_of reason (failed_component e1);
      outcome = outcome_of reason;
    }

abbrev helper_info : Option Helper → Option HelperInfo → Option HelperInfo
helper_info none old = old
helper_info (some h) old = some h.info

abbrev gateway_info : Option Gateway → Option GatewayInfo → Option GatewayInfo
gateway_info none old = old
gateway_info (some g) old = some g.info

abbrev stub_info : Option Bool → Option Bool → Option Bool
stub_info none old = old
stub_info (some u) old = some u

abbrev pub same_component : Component → Component → Bool
same_component dns_component dns_component = true
same_component desync_component desync_component = true
same_component tunnel_component tunnel_component = true
same_component _ _ = false

abbrev pub same_key : Option (Component × ℕ) → Component → ℕ → Bool
same_key none c pid = false
same_key (some (d, q)) c pid = same_component d c && q == pid

-- A failure is recorded once for each process that fails.
unfoldable pub note_failure : Component → ℕ → Engine → Engine
note_failure c pid e =
    if same_key e.failure_key c pid
    then e
    else record_failure unavailable (some c) [] 0 (record e { failure_key = some (c, pid) })

unfoldable pub note_required : Option (Component × ℕ) → Engine → Engine
unfolding note_failure
note_required none e = e
note_required (some (c, pid)) e = if component_required e.layer c then note_failure c pid e else e

unfoldable pub observe_sessions : Engine → Engine
observe_sessions e = record e {
  dns_info = stub_info e.dns e.dns_info;
  desync_info = helper_info e.des e.desync_info;
  tunnel_info = gateway_info e.tun e.tunnel_info;
}

unfoldable pub refresh_if_idle : Engine → Engine
refresh_if_idle e = if e.protection && not e.strategy_switching then refresh_network_status e else e

unfoldable pub note_if_running : Engine → Engine
note_if_running e =
    if e.protection && is_running e.state then note_required (failed_component e) e else e

-- The writes of statusLocked.
unfoldable pub status_update : Engine → Engine
status_update e = note_if_running (refresh_if_idle (observe_sessions e))

-- publishOperationLocked reads the status twice.
unfoldable pub publish : Engine → Engine
publish e = status_update (status_update e)
