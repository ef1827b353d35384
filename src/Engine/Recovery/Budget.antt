-- ===== src/Engine/Recovery/Budget.antt =====
-- How often a component is restarted.
use offveil.Prelude.{
  ℕ, suc, ◌+◌, ◌≤◌, ◌<◌, ◌≡◌, subst, ap, sym, ◌∙◌, Bool, true, false, not, ◌&&◌, Option, none, some,
  arith, leb, if◌then◌else◌, Bool-cases, inl, inr,
}
use offveil.Engine.Signals.{Component, dns_component, desync_component, tunnel_component, elapsed}
use offveil.Engine.Core.{Engine, attempts_of, current_session, set_attempts}
use offveil.Engine.Status.{same_component, status_update, publish, refresh_network_status}
use offveil.Engine.Failures.{recovery_budget, failed_component}
use offveil.Engine.Status.Frame.{Kept-trans, status_update-Kept, refresh-Kept, publish-Kept}
use offveil.Engine.Recovery.{
  Job, Restart, begin_recovery, finish_recovery, decide, recover_failed, begin_restart, exhaust,
  adopt, succeed, give_up, settle_restart, note_key, recovery_cooldown,
}

-- The part of the budget of a component that is used.
abbrev pub used : Component → Engine → ℕ
used c e =
    if leb recovery_budget (attempts_of c e.recovery_attempts)
    then recovery_budget
    else attempts_of c e.recovery_attempts

-- Whether a section started a restart of a component.
abbrev pub starts : Component → Option Job → ℕ
starts c none = 0
starts c (some j) = if same_component j.component c then 1 else 0

begin_restart-attempts :
    (c : Component) (attempt now : ℕ) (e : Engine)
    → (begin_restart c attempt now e).recovery_attempts
      ≡ set_attempts c (suc attempt) e.recovery_attempts
unfolding begin_restart
begin_restart-attempts c attempt now e = (publish-Kept _).recovery_attempts

decide-used :
    (now : ℕ) (c d : Component) (e : Engine)
    → starts d (decide now c (attempts_of c e.recovery_attempts) e).1 + used d e
      ≤ used d (decide now c (attempts_of c e.recovery_attempts) e).0
unfolding decide exhaust
decide-used now dns_component d e =
    ground (arith, begin_restart-attempts dns_component e.recovery_attempts.dns now e)
decide-used now desync_component d e =
    ground (arith, begin_restart-attempts desync_component e.recovery_attempts.desync now e)
decide-used now tunnel_component d e =
    ground (arith, begin_restart-attempts tunnel_component e.recovery_attempts.tunnel now e)

used-cong :
    (c : Component) (e f : Engine) → f.recovery_attempts ≡ e.recovery_attempts → used c f ≡ used c e
used-cong c e f h = rw h

note_key-attempts :
    (c : Component) (pid : ℕ) (e : Engine)
    → (note_key c pid e).recovery_attempts ≡ e.recovery_attempts
note_key-attempts c pid e = ground arith

recover_failed-used :
    (now : ℕ) (k : Option (Component × ℕ)) (d : Component) (e : Engine)
    → starts d (recover_failed now k e).1 + used d e ≤ used d (recover_failed now k e).0
unfolding recover_failed
recover_failed-used now none d e = omega arith
recover_failed-used now (some (c, pid)) d e =
    let same = note_key-attempts c pid e in
    let step =
      subst
        (λ a.
          starts d (decide now c (attempts_of c a) (note_key c pid e)).1 + used d (note_key c pid e)
          ≤ used d (decide now c (attempts_of c a) (note_key c pid e)).0)
        same (decide-used now c d (note_key c pid e)) in
    omega (arith, step, used-cong d e (note_key c pid e) same)

begin_recovery-used :
    (generation now : ℕ) (d : Component) (e : Engine)
    → starts d (begin_recovery generation now e).1 + used d e
      ≤ used d (begin_recovery generation now e).0
unfolding begin_recovery
begin_recovery-used generation now d e =
    elim (Bool-cases (current_session generation e && not e.strategy_switching)) [
      | inl go ↦
          let e1 = status_update e in
          rw go (
            omega (
              arith,
              recover_failed-used now (failed_component e1) d e1,
              used-cong d e e1 (status_update-Kept e).recovery_attempts,
            ))
      | inr stop ↦ rw stop (omega arith)
    ]

adopt-attempts :
    (now : ℕ) (r : Restart) (e : Engine) → (adopt now r e).0.recovery_attempts ≡ e.recovery_attempts
unfolding adopt
adopt-attempts now r e = ground arith

give_up-used :
    (job : Job) (r : Restart) (d : Component) (e : Engine) → used d e ≤ used d (give_up job r e)
unfolding give_up
give_up-used job r d e = ground arith

settle_restart-used :
    (job : Job) (r : Restart) (d : Component) (e : Engine) (works : Bool)
    → used d e ≤ used d (settle_restart job r (e, works))
unfolding settle_restart succeed
settle_restart-used job r d e true =
    let e1 = record e { failure_key = none } in
    omega (
      arith,
      used-cong d e1 (refresh_network_status (status_update e1))
          (Kept-trans (status_update-Kept e1) (refresh-Kept (status_update e1))).recovery_attempts,
    )
settle_restart-used job r d e false = give_up-used job r d e

finish_recovery-used :
    (generation now : ℕ) (job : Job) (r : Restart) (d : Component) (e : Engine)
    → used d e ≤ used d (finish_recovery generation now job r e)
unfolding finish_recovery
finish_recovery-used generation now job r d e = elim (Bool-cases (current_session generation e)) [
  | inl go ↦
      let e1 = record e { strategy_switching = false } in
      let x = adopt now r e1 in
      rw go (
        omega (
          arith,
          used-cong d e1 x.0 (adopt-attempts now r e1),
          settle_restart-used job r d x.0 x.1,
          used-cong d (settle_restart job r x) (publish (settle_restart job r x))
              (publish-Kept (settle_restart job r x)).recovery_attempts,
        ))
  | inr stop ↦ rw stop (omega arith)
]

-- The sections of a running session: the two of a restart, and any other, none of which touches the
-- attempts. A new session resets them.
pub data Step : Engine → Option Job → Engine → Type 0 where
  begins :
      {e f : Engine} {j : Option Job} (generation now : ℕ)
      → f ≡ (begin_recovery generation now e).0
      → j ≡ (begin_recovery generation now e).1
      → Step e j f
  finishes :
      {e f : Engine} {j : Option Job} (generation now : ℕ) (job : Job) (r : Restart)
      → f ≡ finish_recovery generation now job r e
      → j ≡ none
      → Step e j f
  other :
      {e f : Engine} {j : Option Job}
      → f.recovery_attempts ≡ e.recovery_attempts
      → j ≡ none
      → Step e j f

-- `Run c e n f`: from `e` to `f` with `n` starts of restarts of `c`.
pub data Run (c : Component) : Engine → ℕ → Engine → Type 0 where
  done : {e : Engine} {n : ℕ} → n ≡ 0 → Run c e n e
  step :
      {e f g : Engine} {j : Option Job} {m n : ℕ}
      → Step e j f
      → Run c f m g
      → n ≡ starts c j + m
      → Run c e n g

Step-used :
    (c : Component) {e f : Engine} {j : Option Job} → Step e j f → starts c j + used c e ≤ used c f
Step-used c (begins {e} {f} {j} generation now p q) =
    rw (p, q) (begin_recovery-used generation now c e)
Step-used c (finishes {e} {f} {j} generation now job r p q) =
    rw (p, q) (omega (arith, finish_recovery-used generation now job r c e))
Step-used c (other {e} {f} {j} p q) = rw q (omega (arith, used-cong c e f p))

Run-used : (c : Component) {e f : Engine} {n : ℕ} → Run c e n f → n + used c e ≤ used c f
Run-used c (done p) = rw p (omega arith)
Run-used c (step {e} {f} {g} {j} {m} {n} s r p) = rw p (omega (arith, Step-used c s, Run-used c r))

used-le : (c : Component) (e : Engine) → used c e ≤ recovery_budget
used-le c e = ground arith

-- In one session no component is restarted more than twice, whatever the restarts return and whatever
-- else happens between them.
pub restarts_bounded : (c : Component) (e f : Engine) (n : ℕ) → Run c e n f → n ≤ recovery_budget
restarts_bounded c e f n r = omega (arith, Run-used c r, used-le c f)

decide-job :
    (now : ℕ) (c : Component) (attempt : ℕ) (e : Engine) (j : Job)
    → (decide now c attempt e).1 ≡ some j
    → (j.component ≡ c)
      × (j.attempt ≡ attempt)
      × (attempt < recovery_budget)
      × (elapsed recovery_cooldown e.last_recovery now ≡ true)
unfolding decide
decide-job now c attempt e j h = ground arith

recover_failed-job :
    (now : ℕ) (k : Option (Component × ℕ)) (e : Engine) (j : Job)
    → (recover_failed now k e).1 ≡ some j
    → ((pid : ℕ) × (k ≡ some (j.component, pid)))
      × (j.attempt ≡ attempts_of j.component e.recovery_attempts)
      × (j.attempt < recovery_budget)
      × (elapsed recovery_cooldown e.last_recovery now ≡ true)
unfolding recover_failed
recover_failed-job now none e j h = absurd (cc)
recover_failed-job now (some (c, pid)) e j h =
    let (same, attempt, left, rest) =
      decide-job now c (attempts_of c e.recovery_attempts) (note_key c pid e) j h in
    (
      (pid, ap (λ x. some (x, pid)) (sym same)),
      attempt ∙ ap (λ x. attempts_of x e.recovery_attempts) (sym same),
      ground (arith, attempt, left),
      ground (arith, rest),
    )

-- A section that starts a restart found that very component down in a session that runs, with budget
-- left, five seconds or more after the last restart began.
pub begin_recovery-job :
    (generation now : ℕ) (e : Engine) (j : Job)
    → (begin_recovery generation now e).1 ≡ some j
    → (current_session generation e ≡ true)
      × ((pid : ℕ) × (failed_component (status_update e) ≡ some (j.component, pid)))
      × (j.attempt ≡ attempts_of j.component e.recovery_attempts)
      × (j.attempt < recovery_budget)
      × (elapsed recovery_cooldown e.last_recovery now ≡ true)
unfolding begin_recovery
begin_recovery-job generation now e j h =
    elim (Bool-cases (current_session generation e && not e.strategy_switching)) [
      | inl go ↦
          let kept = status_update-Kept e in
          let (found, attempt, left, rest) =
            recover_failed-job now (failed_component (status_update e)) (status_update e) j
              (rw go at h) in
          (
            ground (arith, go),
            found,
            attempt ∙ ap (attempts_of j.component) kept.recovery_attempts,
            left,
            subst (λ t. elapsed recovery_cooldown t now ≡ true) kept.last_recovery rest,
          )
      | inr stop ↦ absurd (ground (arith, h, stop))
    ]
