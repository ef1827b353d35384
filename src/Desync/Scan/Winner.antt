-- ===== src/Desync/Scan/Winner.antt =====
-- What a scan that finds a strategy has shown, and when it finds one.
use offveil.Prelude.{
  ℕ, ◌+◌, ◌≤◌, ◌≡◌, ◌≢◌, refl, sym, ◌∙◌, subst, Bool, true, false, not, ◌&&◌, List, [], ◌∷◌, Option,
  none, some, length, arith, Bool-cases, inl, inr, All, In, any, is_empty, if◌then◌else◌,
}
use offveil.Desync.Chain.{Strategy}
use offveil.Desync.Scan.{
  ScanConfig, scan_hosts, scan_required, scan_candidates, candidates_or, Fate, live, was_canceled,
  expired, Check, Outcome, start_fails, starts_nothing, probed, scan_trial, Arrival, first_success,
  conclude, bad_quorum, quorum_or, scan, Tried,
}
use offveil.Desync.Scan.Trial.{IsTimely, Proven, trial_class-Proven}

-- The probes of a trial.
abbrev pub Probes : Outcome → List Check → Type 0
Probes o checks = (trial : Fate) × (over : Fate) × (o ≡ probed checks trial over)

-- How a trial of this configuration can go: one probe for each host, in time while the trial's context
-- goes on.
abbrev pub Fair : ℕ → ℕ → Outcome → Type 0
Fair required hosts (start_fails trial) = Unit {0}
Fair required hosts starts_nothing = Unit {0}
Fair required hosts (probed checks trial scan) =
    (length checks ≡ required + hosts) × IsTimely trial checks

-- A trial of a candidate.
abbrev pub Honest : ScanConfig → List Strategy → Arrival → Type 0
Honest cfg native a =
    In a.strategy (scan_candidates cfg (candidates_or native cfg.candidates))
    × Fair (length (scan_required cfg)) (length (scan_hosts cfg)) a.outcome

-- A candidate with a trial among the arrivals, whose own probes opened every required host and a quorum of
-- the others in time.
abbrev pub IsWinner : ScanConfig → List Strategy → List Arrival → Strategy → Type 0
IsWinner cfg native arrivals s =
    In s (scan_candidates cfg (candidates_or native cfg.candidates))
    × (a : Arrival) × In a arrivals
    × (a.strategy ≡ s)
    × (checks : List Check) × Probes a.outcome checks
    × Proven cfg.verify_quorum (length (scan_required cfg)) (length (scan_hosts cfg)) checks

abbrev pub trial_ok : ScanConfig → Arrival → Bool
trial_ok cfg a =
    (scan_trial cfg.verify_quorum (length (scan_required cfg)) (length (scan_hosts cfg)) a.strategy
      a.outcome).1

good_quorum :
    (quorum : Option ℕ) (hosts : ℕ)
    → bad_quorum quorum hosts ≡ false
    → quorum_or quorum hosts ≤ hosts
good_quorum none hosts h = cc h
good_quorum (some q) hosts h = ground (arith, h)

trial-Proven :
    (quorum : Option ℕ) (required hosts : ℕ) (s : Strategy) (o : Outcome)
    → bad_quorum quorum hosts ≡ false
    → Fair required hosts o
    → (scan_trial quorum required hosts s o).1 ≡ true
    → (checks : List Check) × Probes o checks × Proven quorum required hosts checks
unfolding scan_trial
trial-Proven quorum required hosts s (start_fails trial) q f h = cc h
trial-Proven quorum required hosts s starts_nothing q f h = cc h
trial-Proven quorum required hosts s (probed checks trial over) q f h = (
  checks,
  (trial, over, refl),
  trial_class-Proven quorum required hosts checks trial over f.0 (good_quorum quorum hosts q) f.1 h,
)

success-IsWinner :
    (cfg : ScanConfig) (native : List Strategy) (arrivals : List Arrival) (s : Strategy)
    → bad_quorum cfg.verify_quorum (length (scan_hosts cfg)) ≡ false
    → All (Honest cfg native) arrivals
    → first_success cfg.verify_quorum
        (length (scan_required cfg))
        (length (scan_hosts cfg))
        arrivals
      ≡ some s
    → IsWinner cfg native arrivals s
unfolding first_success
success-IsWinner cfg native [] s q f h = cc h
success-IsWinner cfg native (a ∷ later) s q f h = elim (Bool-cases (trial_ok cfg a)) [
  | inl e ↦ subst (IsWinner cfg native (a ∷ later)) (some_same _ _ (simp e at h)) (
      let (checks, o, p) = trial-Proven _ _ _ a.strategy a.outcome q f.0.1 e in
      (f.0.0, a, inl refl, refl, checks, o, p))
  | inr e ↦
      let (c, b, i, same, checks, o, p) = success-IsWinner cfg native later s q f.1 (simp e at h) in
      (c, b, inr i, same, checks, o, p)
]
  where
    some_same : (a b : Strategy) → Path (Option Strategy) (some a) (some b) → a ≡ b
    some_same a b e = cc e

success-some :
    (cfg : ScanConfig) (arrivals : List Arrival)
    → any (trial_ok cfg) arrivals ≡ true
    → first_success cfg.verify_quorum
        (length (scan_required cfg))
        (length (scan_hosts cfg))
        arrivals
      ≢ none
unfolding first_success
success-some cfg [] h e = cc h
success-some cfg (a ∷ later) h e = elim (Bool-cases (trial_ok cfg a)) [
  | inl y ↦ cc (simp y at e)
  | inr n ↦ success-some cfg later (simp n at h) (simp n at e)
]

-- The checks in front of a scan.
abbrev pub runs : ScanConfig → Bool
runs cfg =
    not (is_empty cfg.host && is_empty cfg.required && is_empty cfg.verify_hosts)
    && not (bad_quorum cfg.verify_quorum (length (scan_hosts cfg)))

abbrev found_if : Fate → Option Strategy → Option Strategy
found_if live found = found
found_if was_canceled found = none
found_if expired found = none

conclude-found :
    (caller budget : Fate) (candidates : ℕ) (found : Option Strategy) (tried : List Tried)
    → (conclude caller budget candidates found tried).found ≡ found_if caller found
conclude-found live budget candidates found tried = refl
conclude-found was_canceled budget candidates found tried = refl
conclude-found expired budget candidates found tried = refl

abbrev first_winner : ScanConfig → List Arrival → Option Strategy
first_winner cfg =
    first_success cfg.verify_quorum (length (scan_required cfg)) (length (scan_hosts cfg))

scan-found :
    (native : List Strategy) (cfg : ScanConfig) (caller budget : Fate) (arrivals : List Arrival)
    → (scan native cfg caller budget arrivals).found
      ≡ (if runs cfg then found_if caller (first_winner cfg arrivals) else none)
unfolding scan
scan-found native cfg caller budget arrivals =
    elim (Bool-cases (is_empty cfg.host && is_empty cfg.required && is_empty cfg.verify_hosts)) [
      | inl e ↦ simp e refl
      | inr e ↦ elim (Bool-cases (bad_quorum cfg.verify_quorum (length (scan_hosts cfg)))) [
        | inl q ↦ simp (e, q) refl
        | inr q ↦ simp (e, q) (conclude-found caller budget _ _ _)
      ]
    ]

found-live :
    (caller : Fate) (found : Option Strategy) (s : Strategy)
    → found_if caller found ≡ some s
    → (found ≡ some s) × (caller ≡ live)
found-live live found s h = (h, refl)
found-live was_canceled found s h = cc h
found-live expired found s h = cc h

-- Where each trial that comes in is one of a candidate, with a probe for each host if it has probes, and every
-- probe is in time while the context of its trial goes on: a scan returns a strategy only while its caller's
-- context goes on, and then it is a candidate with a trial that came in, whose probes opened every
-- required host and a quorum of the others in time. Whenever there are targets, the quorum is in range, one of
-- the trials succeeds and the caller's context goes on, the scan returns one.
pub scan_lem :
    (native : List Strategy) (cfg : ScanConfig) (caller budget : Fate) (arrivals : List Arrival)
    → All (Honest cfg native) arrivals
    → ((s : Strategy)
        → (scan native cfg caller budget arrivals).found ≡ some s
        → IsWinner cfg native arrivals s × (caller ≡ live))
      × (runs cfg ≡ true
          → caller ≡ live
          → any (trial_ok cfg) arrivals ≡ true
          → (scan native cfg caller budget arrivals).found ≢ none)
scan_lem native cfg caller budget arrivals f = (
  λ s h. elim (Bool-cases (runs cfg)) [
    | inl r ↦
        let (won, going) =
          found-live caller _ s
            (simp r at (sym (scan-found native cfg caller budget arrivals) ∙ h)) in
        (success-IsWinner cfg native arrivals s (ground (arith, r)) f won, going)
    | inr r ↦ cc (simp r at (sym (scan-found native cfg caller budget arrivals) ∙ h))
  ],
  λ r going a h. success-some cfg arrivals a (
      subst (λ c. found_if c (first_winner cfg arrivals) ≡ none) going
        (simp r at (sym (scan-found native cfg caller budget arrivals) ∙ h))),
)
