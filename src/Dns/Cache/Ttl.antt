-- ===== src/Dns/Cache/Ttl.antt =====
-- The times to live of cached answers.
use offveil.Prelude.{
  ℕ, suc, ◌*◌, ◌≤◌, ◌<◌, ◌≡◌, false, List, [], ◌∷◌, ◌++◌, arith, second, All, Bool-cases, inl, inr,
  ◌⊎◌, subst, sym,
}
use offveil.Dns.Message.{Rr, Msg}
use offveil.Dns.Poison.{PoisonSet}
use offveil.Dns.Cache.{
  doh_cache_max_ttl, is_opt, least_ttl, cacheable_ttl, is_cacheable, age_record,
}

abbrev pub sections : Msg → List Rr
sections m = m.answer ++ m.ns ++ m.extra

-- A record outlives `time` nanoseconds.
abbrev pub Lasts : ℕ → Rr → Type 0
Lasts time rr = is_opt rr.rdata ≡ false → time ≤ rr.ttl * second

pub Lasts-le : (a b : ℕ) (rrs : List Rr) → a ≤ b → All (Lasts b) rrs → All (Lasts a) rrs
Lasts-le a b [] h l = tt
Lasts-le a b (rr ∷ rrs) h l = (λ o. ground (arith, l.0 o, h), Lasts-le a b rrs h l.1)

least_ttl-le : (limit : ℕ) (rrs : List Rr) → least_ttl limit rrs ≤ limit
unfolding least_ttl
least_ttl-le limit [] = omega arith
least_ttl-le limit (rr ∷ rrs) =
    ground (arith, least_ttl-le (rr.ttl * second) rrs, least_ttl-le limit rrs)

-- The minimum reaches below the head, and comes from the rest.
least_ttl-head :
    (limit : ℕ) (rr : Rr) (rrs : List Rr)
    → is_opt rr.rdata ≡ false
    → least_ttl limit (rr ∷ rrs) ≤ rr.ttl * second
unfolding least_ttl
least_ttl-head limit rr rrs o =
    ground (arith, o, least_ttl-le (rr.ttl * second) rrs, least_ttl-le limit rrs)

least_ttl-rest :
    (limit : ℕ) (rr : Rr) (rrs : List Rr)
    → (least_ttl limit (rr ∷ rrs) ≡ least_ttl (rr.ttl * second) rrs)
      ⊎ (least_ttl limit (rr ∷ rrs) ≡ least_ttl limit rrs)
unfolding least_ttl
least_ttl-rest limit rr rrs = ground arith

least_ttl-Lasts : (limit : ℕ) (rrs : List Rr) → All (Lasts (least_ttl limit rrs)) rrs
least_ttl-Lasts limit [] = tt
least_ttl-Lasts limit (rr ∷ rrs) = (
  λ o. least_ttl-head limit rr rrs o,
  elim (least_ttl-rest limit rr rrs) [
    | inl e ↦ subst (λ t. All (Lasts t) rrs) (sym e) (least_ttl-Lasts (rr.ttl * second) rrs)
    | inr e ↦ subst (λ t. All (Lasts t) rrs) (sym e) (least_ttl-Lasts limit rrs)
  ],
)

-- An answer is kept for at most a minute and for no longer than any of its records lives, the pseudo
-- record OPT aside.
pub cacheable_ttl-Lasts :
    (size : Msg → ℕ) (poison : PoisonSet) (query m : Msg)
    → (cacheable_ttl size poison query m ≤ doh_cache_max_ttl)
      × All (Lasts (cacheable_ttl size poison query m)) (sections m)
unfolding cacheable_ttl
cacheable_ttl-Lasts size poison query m = elim (Bool-cases (is_cacheable size poison query m)) [
  | inl h ↦
      simp h (
        least_ttl-le doh_cache_max_ttl (sections m),
        least_ttl-Lasts doh_cache_max_ttl (sections m),
      )
  | inr h ↦ simp h (omega arith, nothing_lasts (sections m))
]
  where
    nothing_lasts : (rrs : List Rr) → All (Lasts 0) rrs
    nothing_lasts [] = tt
    nothing_lasts (rr ∷ rrs) = (λ o. omega arith, nothing_lasts rrs)

-- A record that can still be used.
abbrev pub Alive : Rr → Type 0
Alive rr = is_opt rr.rdata ≡ false → 0 < rr.ttl

pub aged-Alive : (age : ℕ) (rr : Rr) → Lasts (suc (age * second)) rr → Alive (age_record age rr)
aged-Alive age rr l = elim (Bool-cases (is_opt rr.rdata)) [
  | inl e ↦ simp e (λ o. ground (arith, e, o))
  | inr e ↦ simp e (λ o. ground (arith, l e))
]
