-- ===== src/Engine/Failures.antt =====
-- Failure detection: offveil-core/internal/engine/recovery.go, failedComponentLocked,
-- componentRequiredLocked and recoveryExhaustedLocked.
use offveil.Prelude.{ℕ, Bool, true, false, not, ◌&&◌, Option, none, some, leb, if◌then◌else◌}
use offveil.Engine.Signals.{
  Layer, selective_layer, Component, dns_component, desync_component, tunnel_component,
}
use offveil.Engine.Core.{Engine, attempts_of}

abbrev pub recovery_budget : ℕ
recovery_budget = 2

-- failedComponentLocked, in the order of its cases, with the process id that identifies the failure.
abbrev pub absent : {A : Type 0} → Option A → Bool
absent none = true
absent (some a) = false

abbrev pub stub_down : Option Bool → Bool
stub_down none = false
stub_down (some stub_up) = not stub_up

unfoldable pub helper_failure : Engine → Option (Component × ℕ)
helper_failure e = elim e.desync_info [
  | some info ↦
      if not info.up
      then some (desync_component, info.pid)
      else if absent e.des && e.desync_configured
      then some (desync_component, 0)
      else none
  | none ↦ if absent e.des && e.desync_configured then some (desync_component, 0) else none
]

unfoldable pub gateway_failure : Engine → Option (Component × ℕ)
unfolding helper_failure
gateway_failure e = elim e.tunnel_info [
  | some info ↦
      if not info.up
      then some (tunnel_component, info.pid)
      else if absent e.tun && not (absent e.tunnel_config)
      then some (tunnel_component, 0)
      else helper_failure e
  | none ↦
      if absent e.tun && not (absent e.tunnel_config)
      then some (tunnel_component, 0)
      else helper_failure e
]

unfoldable pub failed_component : Engine → Option (Component × ℕ)
unfolding gateway_failure
failed_component e =
    if stub_down e.dns_info
    then some (dns_component, 0)
    else if e.strategy_switching
    then none
    else gateway_failure e

-- componentRequiredLocked.
abbrev pub component_required : Layer → Component → Bool
component_required layer dns_component = true
component_required selective_layer c = true
component_required layer c = false

-- recoveryExhaustedLocked.
abbrev pub recovery_exhausted : Component → Engine → Bool
recovery_exhausted c e = leb recovery_budget (attempts_of c e.recovery_attempts)
