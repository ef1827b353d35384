-- ===== src/Engine/Lifecycle/Stages.antt =====
-- The stages of a start.
use offveil.Prelude.{
  ℕ, ◌≡◌, refl, ◌∙◌, Bool, true, false, Option, none, some, arith, Bool-cases, inl, inr, ◌⊎◌, subst,
}
use offveil.Engine.Signals.{Layer, dns_layer, selective_layer, fallback_layer}
use offveil.Engine.Core.{Engine, dns_hook, capture_hook, job_hook}
use offveil.Engine.Status.{publish}
use offveil.Engine.Status.Frame.{publish-Kept}
use offveil.Engine.Layers.{
  Attempt, helper_fails, gateway_fails, attach_fails, all_up, Measurement, stop_layer, start_layer,
  fall_back, with_helper, with_gateway, register_layer, apply_classification,
}
use offveil.Engine.Lifecycle.{
  StartError, Startup, Captured, fail_start, load_rules, enter_layer, layer_settled, start_resolver,
  start_capture, start_stages, capture_denied, capture_fails, captured, register, engine_failed,
  privilege_missing, tun_failed, unfiltered,
}
use offveil.Engine.Lifecycle.Sessions.{IsOff, fail_start-IsOff}

abbrev pub Layered : Layer → Type 0
Layered l = (l ≡ dns_layer) ⊎ (l ≡ selective_layer) ⊎ (l ≡ fallback_layer)

-- The stages of a start end with a resolver and a layer, or with an error and the engine off.
abbrev pub Ends : Option Bool → Engine × Option StartError → Type 0
Ends resolver (f, error) =
    ((error ≡ none) × (f.dns ≡ resolver) × Layered f.layer)
    ⊎ ((x : StartError) × (error ≡ some x) × IsOff f)

pub record Staged (resolver : Option Bool) (e : Engine) (r : Engine × Option StartError)
    : Type 0 where
  pub generation : r.0.session_generation ≡ e.session_generation
  pub ends : Ends resolver r

failed :
    (resolver : Option Bool) (e : Engine) (x : StartError)
    → Staged resolver e (fail_start e, some x)
failed resolver e x =
    let (off, same) = fail_start-IsOff e in record { generation = same; ends = inr (x, refl, off) }

-- A try of the layer keeps the session and the resolver.
record Laid (attempt : Attempt) (e : Engine) (r : Engine × Bool) : Type 0 where
  generation : r.0.session_generation ≡ e.session_generation
  dns : r.0.dns ≡ e.dns
  layer : r.1 ≡ true → r.0.layer ≡ selective_layer

register_layer-same :
    (e : Engine)
    → ((register_layer e).session_generation ≡ e.session_generation)
      × ((register_layer e).dns ≡ e.dns)
register_layer-same e = ground arith

start_layer-Laid :
    (now : ℕ) (attempt : Attempt) (e : Engine) → Laid attempt e (start_layer publish now attempt e)
unfolding start_layer stop_layer
start_layer-Laid now helper_fails e =
    let k = publish-Kept (record e { last_layer_try = now }) in
    record { generation = k.session_generation; dns = k.dns; layer = λ h. cc h }
start_layer-Laid now (gateway_fails h) e =
    let e1 = record e { last_layer_try = now } in
    let k = publish-Kept e1 in
    let k2 = publish-Kept (with_helper h (publish e1)) in
    record {
      generation = k2.session_generation ∙ k.session_generation;
      dns = k2.dns ∙ k.dns;
      layer = λ h. cc h;
    }
start_layer-Laid now (attach_fails h g) e =
    let e1 = record e { last_layer_try = now } in
    let e2 = with_helper h (publish e1) in
    let k = publish-Kept e1 in
    let k2 = publish-Kept e2 in
    let k3 = publish-Kept (with_gateway g (publish e2)) in
    record {
      generation = k3.session_generation ∙ k2.session_generation ∙ k.session_generation;
      dns = k3.dns ∙ k2.dns ∙ k.dns;
      layer = λ h. cc h;
    }
start_layer-Laid now (all_up h g) e =
    let e1 = record e { last_layer_try = now } in
    let e2 = with_helper h (publish e1) in
    let e3 = publish (with_gateway g (publish e2)) in
    let k = publish-Kept e1 in
    let k2 = publish-Kept e2 in
    let k3 = publish-Kept (with_gateway g (publish e2)) in
    let r = register_layer-same (record e3 { tunnel_info = some g.info }) in
    record {
      generation = r.0 ∙ k3.session_generation ∙ k2.session_generation ∙ k.session_generation;
      dns = r.1 ∙ k3.dns ∙ k2.dns ∙ k.dns;
      layer = λ h. refl;
    }

fall_back-layer :
    (e : Engine)
    → ((fall_back e).session_generation ≡ e.session_generation)
      × ((fall_back e).dns ≡ e.dns)
      × ((fall_back e).layer ≡ fallback_layer)
unfolding fall_back stop_layer
fall_back-layer e = (refl, refl, refl)

layer_settled-Staged :
    (canceled : Bool) (attempt : Attempt) (e : Engine) (r : Engine × Bool)
    → Laid attempt e r
    → Staged e.dns e (layer_settled canceled r)
layer_settled-Staged canceled attempt e (f, true) laid = record {
  generation = laid.generation;
  ends = inl (refl, laid.dns, inr (inl (laid.layer refl)));
}
layer_settled-Staged true attempt e (f, false) laid =
    let (off, same) = fail_start-IsOff f in
    record { generation = same ∙ laid.generation; ends = inr (engine_failed, refl, off) }
layer_settled-Staged false attempt e (f, false) laid =
    let (same, dns, layer) = fall_back-layer f in
    record {
      generation = same ∙ laid.generation;
      ends = inl (refl, dns ∙ laid.dns, inr (inr layer));
    }

enter_layer-Staged : (now : ℕ) (w : Startup) (e : Engine) → Staged e.dns e (enter_layer now w e)
unfolding enter_layer
enter_layer-Staged now w e = elim (Bool-cases (unfiltered e.classification)) [
  | inl h ↦ rw h (record { generation = refl; ends = inl (refl, refl, inl refl) })
  | inr h ↦ rw h (
      layer_settled-Staged w.canceled w.attempt e (start_layer publish now w.attempt e)
        (start_layer-Laid now w.attempt e))
]

apply_classification-same :
    (forced : Bool) (now : ℕ) (m : Measurement) (e : Engine)
    → ((apply_classification forced now m e).session_generation ≡ e.session_generation)
      × ((apply_classification forced now m e).dns ≡ e.dns)
unfolding apply_classification
apply_classification-same forced now m e = ground arith

moved :
    {seen resolver : Option Bool} {e f : Engine} {r : Engine × Option StartError}
    → f.session_generation ≡ e.session_generation
    → seen ≡ resolver
    → Staged seen f r
    → Staged resolver e r
moved {resolver = resolver} {e = e} {r = r} same dns s =
    subst (λ d. Staged d e r) dns (record { generation = s.generation ∙ same; ends = s.ends })

start_resolver-Staged :
    (now : ℕ) (w : Startup) (resolver : Option Bool) (e : Engine)
    → Staged resolver e (start_resolver now w resolver e)
unfolding start_resolver
start_resolver-Staged now w none e = failed none e engine_failed
start_resolver-Staged now w (some up) e =
    let e1 = register dns_hook (record e { dns = some up; dns_info = some up }) in
    let e2 = record (publish e1) { fingerprint = w.fingerprint } in
    let k = publish-Kept e1 in
    let k2 = publish-Kept e2 in
    let (same, dns) = apply_classification-same w.forced now w.measurement (publish e2) in
    moved (same ∙ k2.session_generation ∙ k.session_generation) (dns ∙ k2.dns ∙ k.dns)
      (enter_layer-Staged now w (apply_classification w.forced now w.measurement (publish e2)))

start_capture-Staged :
    (now : ℕ) (w : Startup) (c : Captured) (e : Engine)
    → Staged w.resolver e (start_capture now w c e)
unfolding start_capture
start_capture-Staged now w capture_denied e = failed w.resolver e privilege_missing
start_capture-Staged now w capture_fails e = failed w.resolver e tun_failed
start_capture-Staged now w (captured egress) e =
    let e1 =
      register capture_hook
        (record e { cap = true; capture_info = some egress; dns_configured = true }) in
    moved (publish-Kept e1).session_generation refl
      (start_resolver-Staged now w w.resolver (publish e1))

pub start_stages-Staged :
    (now : ℕ) (w : Startup) (e : Engine) → Staged w.resolver e (start_stages now w e)
unfolding start_stages load_rules
start_stages-Staged now w e = elim (Bool-cases w.job_made) [
  | inl h ↦
      let e1 = register job_hook e in
      let e2 = load_rules w.document (publish e1) in
      let k = publish-Kept e1 in
      let k2 = publish-Kept e2 in
      simp h (
        moved (k2.session_generation ∙ k.session_generation) refl
          (start_capture-Staged now w w.capture (publish e2)))
  | inr h ↦ simp h (failed w.resolver e engine_failed)
]
