-- ===== src/Dns/Breaker/Circuit.antt =====
-- When the circuit is open.
use offveil.Prelude.{ℕ, suc, ◌+◌, ◌≤◌, ◌<◌, ◌≡◌, ◌≢◌, refl, true, false, List, [], ◌∷◌, arith, ◌↔◌}
use offveil.Dns.Breaker.{
  Breaker, doh_fail_threshold, doh_skip_cooldown, note_success, note_failure, should_skip,
  reset_breaker,
}

-- The circuit is open exactly when three failures in a row are on record.
abbrev pub IsSound : Breaker → Type 0
IsSound b = (b.skip_until ≡ 0) ↔ (b.fail_streak < doh_fail_threshold)

-- What happens to a breaker.
pub data Event : Type 0 where
  ask success reset : Event
  failure : Event

abbrev pub happen : ℕ → Event → Breaker → Breaker
happen now ask b = (should_skip now b).0
happen now success b = note_success b
happen now failure b = note_failure now b
happen now reset b = reset_breaker b

abbrev pub history : List (ℕ × Event) → Breaker → Breaker
history [] b = b
history ((now, ev) ∷ evs) b = history evs (happen now ev b)

happen-IsSound : (now : ℕ) (ev : Event) (b : Breaker) → IsSound b → IsSound (happen now ev b)
unfolding should_skip note_success note_failure
happen-IsSound now ask b s = ground (arith, s)
happen-IsSound now success b s = ground (arith, s)
happen-IsSound now failure b s = ground (arith, s)
happen-IsSound now reset b s = ground (arith, s)

history-IsSound : (evs : List (ℕ × Event)) (b : Breaker) → IsSound b → IsSound (history evs b)
history-IsSound [] b s = s
history-IsSound ((now, ev) ∷ evs) b s =
    history-IsSound evs (happen now ev b) (happen-IsSound now ev b s)

skips :
    (now : ℕ) (c : Breaker)
    → IsSound c
    → (should_skip now c).1 ≡ true
    → (doh_fail_threshold ≤ c.fail_streak) × (now < c.skip_until)
unfolding should_skip
skips now c sound h = ground (arith, sound, h)

reopens :
    (now later : ℕ) (c : Breaker)
    → doh_fail_threshold ≤ suc c.fail_streak
    → later < now + doh_skip_cooldown
    → (should_skip later (note_failure now c)).1 ≡ true
unfolding should_skip note_failure
reopens now later c h l = ground (arith, h, l)

lets_through :
    (now later : ℕ) (c : Breaker)
    → c.skip_until ≤ now
    → c.skip_until ≢ 0
    → let (d, skipped) = should_skip now c in
      (skipped ≡ false)
      × ((should_skip later (note_failure later d)).1 ≡ true)
      × ((should_skip later (note_success d)).1 ≡ false)
      × (should_skip later d ≡ (d, false))
unfolding should_skip note_failure note_success
lets_through now later c h n =
    (ground (arith, h, n), ground (arith, h, n), refl, ground (arith, h, n))

-- In every history of questions, successes, failures and resets, a breaker that begins closed skips a
-- question only while three failures in a row are on record and their cooldown runs; a failure then
-- keeps it skipping for sixty seconds. After them a question is let through, and so is every one behind
-- it until an outcome is noted: a failure opens the circuit again, and a success closes it.
pub circuit :
    (evs : List (ℕ × Event)) (b : Breaker) (now later : ℕ)
    → IsSound b
    → let c = history evs b in
      ((should_skip now c).1 ≡ true → (doh_fail_threshold ≤ c.fail_streak) × (now < c.skip_until))
      × (doh_fail_threshold ≤ suc c.fail_streak
          → later < now + doh_skip_cooldown
          → (should_skip later (note_failure now c)).1 ≡ true)
      × (c.skip_until ≤ now
          → c.skip_until ≢ 0
          → let (d, skipped) = should_skip now c in
            (skipped ≡ false)
            × ((should_skip later (note_failure later d)).1 ≡ true)
            × ((should_skip later (note_success d)).1 ≡ false)
            × (should_skip later d ≡ (d, false)))
circuit evs b now later s =
    let c = history evs b in
    let sound = history-IsSound evs b s in
    (skips now c sound, reopens now later c, lets_through now later c)
