-- ===== src/Engine/Status/Reasons.antt =====
-- What the published health says of the components, the line and the groups.
use offveil.Prelude.{
  ℕ, ◌≤◌, ◌≡◌, refl, Bool, true, false, not, Option, none, some, arith, ◌⊎◌, inl, inr, ◌↔◌,
  Option-cases,
}
use offveil.Engine.Signals.{
  degraded, Component, dns_component, desync_component, tunnel_component, Layer,
}
use offveil.Engine.Groups.{persistent_unreachable}
use offveil.Engine.Core.{Engine, ok_outcome, attempts_of, is_running}
use offveil.Engine.Status.{
  is_offline, is_fallback, later_reason, component_reason, reason_of, broken_state, observe_gateway,
  refresh_network_status,
}
use offveil.Engine.Failures.{failed_component, component_required, recovery_budget}

-- A component that is down and that the current layer needs.
abbrev pub Needed : Engine → Component → Type 0
Needed e c =
    (pid : ℕ) × (failed_component (observe_gateway e) ≡ some (c, pid))
    × (component_required e.layer c ≡ true)

-- No component that the layer needs is down.
abbrev pub intact_component : Layer → Option (Component × ℕ) → Bool
intact_component layer none = true
intact_component layer (some (c, pid)) = not (component_required layer c)

-- While protection is on, both targets are reported ok exactly when no component that the layer
-- needs is down, the line is not offline, the layer is not the fallback, and no persistent group is
-- unreachable.
pub refresh-outcome_iff :
    (e : Engine)
    → e.protection ≡ true
    → ((refresh_network_status e).outcome ≡ ok_outcome) ↔ (
        (intact_component e.layer (failed_component (observe_gateway e)) ≡ true)
        × (is_offline e.classification ≡ false)
        × (is_fallback e.layer ≡ false)
        × (persistent_unreachable e.groups ≡ false))
unfolding refresh_network_status reason_of component_reason later_reason
refresh-outcome_iff e p = (λ h. ground (arith, p), λ h. ground (arith, p))

exhausted_when :
    (e : Engine) (c : Component)
    → broken_state (component_reason (observe_gateway e) c) ≡ degraded
    → (c ≡ dns_component)
      ⊎ ((component_required e.layer c ≡ true)
          × (recovery_budget ≤ attempts_of c e.recovery_attempts))
unfolding component_reason later_reason observe_gateway
exhausted_when e dns_component h = inl refl
exhausted_when e desync_component h = inr (ground arith)
exhausted_when e tunnel_component h = inr (ground arith)

pub refresh-running :
    (e : Engine) → e.protection ≡ true → is_running (refresh_network_status e).state ≡ true
unfolding refresh_network_status
refresh-running e p = ground (arith, p)

-- The state turns to degraded exactly when the resolver is down, or a component that the layer needs
-- is down and its restarts are used up; in every other case it is active.
pub refresh-degraded_iff :
    (e : Engine)
    → e.protection ≡ true
    → (is_running (refresh_network_status e).state ≡ true)
      × (((refresh_network_status e).state ≡ degraded) ↔ (
          (c : Component) × (pid : ℕ) × (failed_component (observe_gateway e) ≡ some (c, pid))
          × ((c ≡ dns_component)
              ⊎ ((component_required e.layer c ≡ true)
                  × (recovery_budget ≤ attempts_of c e.recovery_attempts)))))
unfolding refresh_network_status reason_of component_reason later_reason
refresh-degraded_iff e p = (
  ground (arith, p),
  (
    λ h. elim (Option-cases (failed_component (observe_gateway e))) [
      | inl q ↦ absurd (ground (arith, p, q))
      | inr (k, q) ↦ (k.0, k.1, q, exhausted_when e k.0 (ground (arith, p, q)))
    ],
    λ f. ground (arith, p, f.2, f.3),
  ),
)
