-- ===== src/Engine/Layers/Fallback.antt =====
-- What a round without the TCP layer does to protection.
use offveil.Prelude.{
  ℕ, suc, ◌≤◌, ◌≡◌, ◌∙◌, Bool, true, false, not, ◌&&◌, ◌||◌, Option, none, some, arith, Bool-cases,
  inl, inr, if◌then◌else◌, ◌⊎◌, ap,
}
use offveil.Engine.Signals.{selective_layer, fallback_layer}
use offveil.Engine.Core.{Engine, current_session, is_running}
use offveil.Engine.Status.{refresh_network_status, publish, is_selective}
use offveil.Engine.Status.Frame.{Kept, Kept-trans, refresh-Kept, publish-Kept}
use offveil.Engine.Layers.{
  Attempt, helper_fails, gateway_fails, attach_fails, all_up, Measurement, DnsRound, dns_round,
  begin_dns, layer_retry_budget, start_layer, fall_back, settle_layer, stop_layer,
  apply_classification, measured, wants_layer, count_retry, try_layer, finish_dns,
}

abbrev pub comes_up : Attempt → Bool
comes_up (all_up h g) = true
comes_up _ = false

-- Outside the TCP layer neither its helper nor its gateway runs, and none is configured.
abbrev pub IsBare : Engine → Type 0
IsBare e =
    (e.layer ≡ selective_layer)
    ⊎ ((e.des ≡ none) × (e.tun ≡ none) × (e.tunnel_config ≡ none) × (e.desync_configured ≡ false))

-- What an attempt leaves alone and what it decides.
record Tried (attempt : Attempt) (e f : Engine) : Type 0 where
  session_generation : f.session_generation ≡ e.session_generation
  protection : f.protection ≡ e.protection
  state : f.state ≡ e.state
  dns : f.dns ≡ e.dns
  layer_retries : f.layer_retries ≡ e.layer_retries
  layer : f.layer ≡ (if comes_up attempt then selective_layer else fallback_layer)
  bare : IsBare f

settle-Tried :
    (now : ℕ) (attempt : Attempt) (e : Engine)
    → Tried attempt e (settle_layer (start_layer (λ f. f) now attempt e))
unfolding start_layer fall_back stop_layer
settle-Tried now helper_fails e = ground arith
settle-Tried now (gateway_fails h) e = ground arith
settle-Tried now (attach_fails h g) e = ground arith
settle-Tried now (all_up h g) e = ground arith

-- What a measurement leaves alone.
record Same (e f : Engine) : Type 0 where
  session_generation : f.session_generation ≡ e.session_generation
  protection : f.protection ≡ e.protection
  state : f.state ≡ e.state
  dns : f.dns ≡ e.dns
  layer_retries : f.layer_retries ≡ e.layer_retries
  layer : f.layer ≡ e.layer
  bare : IsBare e → IsBare f

measured-Same :
    (forced : Bool) (now : ℕ) (m : Option Measurement) (e : Engine)
    → Same e (measured forced now m e)
unfolding apply_classification
measured-Same forced now none e = ground arith
measured-Same forced now (some m) e = ground arith

-- The outcome of a round: `tried` says whether the layer was tried.
pub record Settled (tried retry : Bool) (attempt : Attempt) (e f : Engine) : Type 0 where
  pub session_generation : f.session_generation ≡ e.session_generation
  pub protection : f.protection ≡ e.protection
  pub running : is_running e.state ≡ true → is_running f.state ≡ true
  pub dns : f.dns ≡ e.dns
  pub layer_retries :
      f.layer_retries ≡ (if tried && retry then suc e.layer_retries else e.layer_retries)
  pub layer :
      f.layer
      ≡ (if tried then (if comes_up attempt then selective_layer else fallback_layer) else e.layer)
  pub bare : IsBare e → IsBare f

try_layer-Settled :
    (retry : Bool) (now : ℕ) (attempt : Attempt) (e : Engine)
    → Settled true retry attempt e (try_layer retry now attempt e)
unfolding try_layer
try_layer-Settled retry now attempt e =
    let counted = record (count_retry retry e) { strategy_switching = true } in
    let kept = publish-Kept counted in
    let tried = settle-Tried now attempt (publish counted) in
    record {
      session_generation = tried.session_generation ∙ kept.session_generation ∙ ground arith;
      protection = tried.protection ∙ kept.protection ∙ ground arith;
      running = λ h. ap is_running tried.state ∙ kept.running (ground (arith, h));
      dns = tried.dns ∙ kept.dns ∙ ground arith;
      layer_retries = tried.layer_retries ∙ kept.layer_retries ∙ ground arith;
      layer = tried.layer;
      bare = λ b. tried.bare;
    }

Kept-IsBare : {e f : Engine} → Kept e f → IsBare e → IsBare f
Kept-IsBare k b = ground (arith, k, b)

untried : (retry : Bool) (attempt : Attempt) (e : Engine) → Settled false retry attempt e e
untried retry attempt e = ground arith

attempted :
    (tried retry : Bool) (now : ℕ) (attempt : Attempt) (e : Engine)
    → Settled tried retry attempt e (if tried then try_layer retry now attempt e else e)
attempted true retry now attempt e = try_layer-Settled retry now attempt e
attempted false retry now attempt e = untried retry attempt e

Settled-chain :
    {tried retry : Bool} {attempt : Attempt} {e e1 e2 f : Engine}
    → Same e e1
    → Settled tried retry attempt e1 e2
    → Kept e2 f
    → Settled tried retry attempt e f
Settled-chain {tried} same s kept = record {
  session_generation = kept.session_generation ∙ s.session_generation ∙ same.session_generation;
  protection = kept.protection ∙ s.protection ∙ same.protection;
  running = λ h. kept.running (s.running (ap is_running same.state ∙ h));
  dns = kept.dns ∙ s.dns ∙ same.dns;
  layer_retries = kept.layer_retries ∙ s.layer_retries ∙ ground (arith, same.layer_retries);
  layer = kept.layer ∙ s.layer ∙ ground (arith, same.layer);
  bare = λ b. Kept-IsBare kept (s.bare (same.bare b));
}

finish_dns-acts :
    (generation now : ℕ) (round : DnsRound) (forced : Bool) (m : Option Measurement)
    (attempt : Attempt) (e : Engine)
    → current_session generation e ≡ true
    → is_selective e.layer ≡ false
    → finish_dns generation now round forced m attempt e ≡ (
        let e1 = measured forced now m e in
        publish (
          refresh_network_status
            (if wants_layer round.retry e1 then try_layer round.retry now attempt e1 else e1)))
unfolding finish_dns
finish_dns-acts generation now round forced m attempt e c s = simp (c, s)

pub finish_dns-Settled :
    (generation now : ℕ) (round : DnsRound) (forced : Bool) (m : Option Measurement)
    (attempt : Attempt) (e : Engine)
    → current_session generation e ≡ true
    → is_selective e.layer ≡ false
    → Settled
        (wants_layer round.retry (measured forced now m e))
        round.retry
        attempt
        e
        (finish_dns generation now round forced m attempt e)
finish_dns-Settled generation now round forced m attempt e c s =
    let e1 = measured forced now m e in
    let tried = wants_layer round.retry e1 in
    let e2 = if tried then try_layer round.retry now attempt e1 else e1 in
    rw (finish_dns-acts generation now round forced m attempt e c s) (
      Settled-chain (measured-Same forced now m e) (attempted tried round.retry now attempt e1)
        (Kept-trans (refresh-Kept e2) (publish-Kept (refresh_network_status e2))))

finish_dns-stale :
    (generation now : ℕ) (round : DnsRound) (forced : Bool) (m : Option Measurement)
    (attempt : Attempt) (e : Engine)
    → (not (current_session generation e) || is_selective e.layer) ≡ true
    → finish_dns generation now round forced m attempt e ≡ e
unfolding finish_dns
finish_dns-stale generation now round forced m attempt e h = simp h

retry_left :
    (now : ℕ) (e : Engine) (round : DnsRound)
    → begin_dns now e ≡ some round
    → round.retry ≡ true
    → suc e.layer_retries ≤ layer_retry_budget
unfolding begin_dns dns_round
retry_left now e round b r = ground (arith, b, r)

-- A round that is finished on the state on which it began keeps the number of retries of a fallback
-- within the budget of three, however the attempt ends.
pub retries_bounded :
    (generation now then_now : ℕ) (forced : Bool) (m : Option Measurement) (attempt : Attempt)
    (e : Engine) (round : DnsRound)
    → begin_dns now e ≡ some round
    → e.layer_retries ≤ layer_retry_budget
    → (finish_dns generation then_now round forced m attempt e).layer_retries ≤ layer_retry_budget
retries_bounded generation now then_now forced m attempt e round b h =
    elim (Bool-cases (not (current_session generation e) || is_selective e.layer)) [
      | inl stale ↦ rw (finish_dns-stale generation then_now round forced m attempt e stale) h
      | inr live ↦
          let done =
            finish_dns-Settled generation then_now round forced m attempt e (ground (arith, live))
              (ground (arith, live)) in
          let left = retry_left now e round b in rw done.layer_retries (ground (arith, left, h))
    ]
