-- ===== src/Desync/Scan/Trial.antt =====
-- What a trial that succeeds has shown.
use offveil.Prelude.{
  ℕ, zero, suc, ◌+◌, ◌≤◌, ◌≡◌, refl, Bool, true, false, not, ◌&&◌, List, [], ◌∷◌, Option, none,
  some, take, drop, count_if, length, arith, ◌⊎◌, length-drop, Bool-cases, inl, inr, All, leb,
  if◌then◌else◌,
}
use offveil.Desync.Scan.{
  FailClass, fail_ok, fail_timeout, is_ok, Fate, is_live, Check, timely_ok, is_open, first_failure,
  quorum_or, reaches, required_ok, quorum_passed, trial_class,
}

-- A context that goes on has never been over: behind a live trial every probe came back in time.
abbrev pub IsTimely : Fate → List Check → Type 0
IsTimely trial checks = is_live trial ≡ true → All (λ c. c.timely ≡ true) checks

-- Every required host was open in time, and as many of the others as the quorum asks for.
pub record Proven (quorum : Option ℕ) (required hosts : ℕ) (checks : List Check) : Type 0 where
  pub required_open : count_if timely_ok (take required checks) ≡ required
  pub enough : quorum_or quorum hosts ≤ count_if timely_ok (drop required checks)

timely-count :
    (checks : List Check)
    → All (λ c. c.timely ≡ true) checks
    → count_if timely_ok checks ≡ count_if is_open checks
timely-count [] h = refl
timely-count (c ∷ cs) h = ground (arith, h.0, timely-count cs h.1)

drop-All :
    (n : ℕ) (checks : List Check)
    → All (λ c. c.timely ≡ true) checks
    → All (λ c. c.timely ≡ true) (drop n checks)
drop-All zero checks h = h
drop-All (suc n) [] h = tt
drop-All (suc n) (c ∷ cs) h = drop-All n cs h.1

-- Where nothing failed, every host is open.
no_failure-count :
    (checks : List Check)
    → is_ok (first_failure checks) ≡ true
    → count_if is_open checks ≡ length checks
no_failure-count [] h = refl
no_failure-count (c ∷ cs) h = elim (Bool-cases (is_ok c.class)) [
  | inl e ↦ simp e (omega (arith, no_failure-count cs (simp e at h)))
  | inr e ↦ cc (simp e at h)
]

no_failure-drop :
    (n : ℕ) (checks : List Check)
    → is_ok (first_failure checks) ≡ true
    → is_ok (first_failure (drop n checks)) ≡ true
no_failure-drop zero checks h = h
no_failure-drop (suc n) [] h = refl
no_failure-drop (suc n) (c ∷ cs) h = elim (Bool-cases (is_ok c.class)) [
  | inl e ↦ no_failure-drop n cs (simp e at h)
  | inr e ↦ cc (simp e at h)
]

clash : (worst : FailClass) → is_ok (if is_ok worst then fail_timeout else worst) ≡ true → ⊥
clash worst h = elim (Bool-cases (is_ok worst)) [
  | inl e ↦ cc (simp e at h)
  | inr e ↦ cc (simp e at h)
]

-- The two ways to succeed.
ways :
    (req passed going enough : Bool) (worst : FailClass)
    → is_ok (
        let c1 = if enough && req then fail_ok else worst in
        let c2 = if going then c1 else fail_timeout in
        let c3 = if passed then fail_ok else c2 in if not req && is_ok c3 then fail_timeout else c3)
      ≡ true
    → (req ≡ true) × ((passed ≡ true) ⊎ ((going ≡ true) × ((enough ≡ true) ⊎ (is_ok worst ≡ true))))
ways false true going enough worst h = cc h
ways false false false enough worst h = cc h
ways false false true true worst h = absurd (clash worst h)
ways false false true false worst h = absurd (clash worst h)
ways true true going enough worst h = (refl, inl refl)
ways true false false enough worst h = cc h
ways true false true true worst h = (refl, inr (refl, inl refl))
ways true false true false worst h = (refl, inr (refl, inr h))

reaches-enough :
    (quorum : Option ℕ) (hosts timely : ℕ)
    → reaches quorum timely ≡ true
    → quorum_or quorum hosts ≤ timely
reaches-enough none hosts timely h = cc h
reaches-enough (some q) hosts timely h = ground (arith, h)

pub trial_class-Proven :
    (quorum : Option ℕ) (required hosts : ℕ) (checks : List Check) (trial scan : Fate)
    → length checks ≡ required + hosts
    → quorum_or quorum hosts ≤ hosts
    → IsTimely trial checks
    → is_ok (trial_class quorum required hosts checks trial scan) ≡ true
    → Proven quorum required hosts checks
unfolding trial_class quorum_passed required_ok
trial_class-Proven quorum required hosts checks trial scan n q t h =
    let (req, how) =
      ways (required_ok required checks) (quorum_passed quorum required checks scan) (is_live trial)
        (leb (quorum_or quorum hosts) (count_if is_open (drop required checks)))
        (first_failure checks) h in
    record {
      required_open = ground (arith, req);
      enough = elim how [
        | inl passed ↦ reaches-enough quorum hosts _ (ground (arith, passed))
        | inr (going, inl enough) ↦ ground (arith, enough, intime going)
        | inr (going, inr clean) ↦ omega (
          arith,
          intime going,
          q,
          n,
          length-drop required checks,
          no_failure-count (drop required checks) (no_failure-drop required checks clean),
        )
      ];
    }
  where
    intime :
        is_live trial ≡ true
        → count_if timely_ok (drop required checks) ≡ count_if is_open (drop required checks)
    intime going = timely-count (drop required checks) (drop-All required checks (t going))
