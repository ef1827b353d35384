-- ===== src/Dns/Breaker/Endpoints.antt =====
-- The endpoints that a question reaches.
use offveil.Prelude.{
  ◌+◌, ◌≡◌, refl, Bool, true, false, List, [], ◌∷◌, arith, Text, length, count_if, Bool-cases, inl,
  inr, ◌==◌, ◌∙◌,
}
use offveil.Dns.Breaker.{preferred_first, waves}

parts :
    (p : Text → Bool) (preferred : Text) (eps : List Text)
    → let (first, fallbacks) = preferred_first preferred eps in
      count_if p first + count_if p fallbacks ≡ count_if p eps
unfolding preferred_first
parts p preferred [] = refl
parts p preferred (ep ∷ eps) = ground (arith, parts p preferred eps)

lengths :
    (preferred : Text) (eps : List Text)
    → let (first, fallbacks) = preferred_first preferred eps in
      length first + length fallbacks ≡ length eps
unfolding preferred_first
lengths preferred [] = refl
lengths preferred (ep ∷ eps) = ground (arith, lengths preferred eps)

empty-length : (xs : List Text) → length xs ≡ 0 → xs ≡ []
empty-length [] h = refl
empty-length (x ∷ xs) h = ground (arith, h)

rest_only :
    (p : Text → Bool) (first fallbacks : List Text)
    → first ≡ []
    → count_if p fallbacks + 0 ≡ count_if p first + count_if p fallbacks
rest_only p first fallbacks e = rw e (omega arith)

all_of :
    (fallbacks eps : List Text)
    → fallbacks ≡ []
    → (length fallbacks == length eps) ≡ true
    → length eps ≡ 0
all_of fallbacks eps e h = ground (arith, rw e at h)

missing :
    (first fallbacks eps : List Text)
    → first ≡ []
    → length first + length fallbacks ≡ length eps
    → (length fallbacks == length eps) ≡ false
    → ⊥
missing first fallbacks eps e sum h = ground (arith, rw e at sum, h)

-- The first wave and the fallbacks together hold every endpoint as often as the client has it, and
-- the first wave is empty only without endpoints, whether or not the preferred endpoint is one of them.
pub waves_lem :
    (preferred : Text) (eps : List Text)
    → let (first, fallbacks) = waves preferred eps in
      ((p : Text → Bool) → count_if p first + count_if p fallbacks ≡ count_if p eps)
      × (first ≡ [] → eps ≡ [])
unfolding waves
waves_lem preferred eps =
    let (first, fallbacks) = preferred_first preferred eps in
    let sum = lengths preferred eps in
    elim (Bool-cases (length fallbacks == length eps)) [
      | inl h ↦
          let lone = empty-length first (ground (arith, h, sum)) in
          simp h (
            λ p. rest_only p first fallbacks lone ∙ parts p preferred eps,
            λ e. empty-length eps (all_of fallbacks eps e h),
          )
      | inr h ↦
          simp h (λ p. parts p preferred eps, λ e. absurd (missing first fallbacks eps e sum h))
    ]
