-- ===== src/Dns/Breaker/Tests.antt =====
-- A breaker over time.
use offveil.Prelude.{
  ℕ, suc, ◌+◌, ◌*◌, ◌≤◌, ◌<◌, ◌≡◌, ◌≢◌, refl, true, false, List, [], ◌∷◌, Text, codes, text_eq,
  second, arith,
}
use offveil.Dns.Breaker.{
  Breaker, doh, note_success, note_failure, should_skip, doh_fail_threshold, doh_skip_cooldown,
  waves, preferred_first,
}
use offveil.Dns.Breaker.Circuit.{Event, failure, history, circuit, IsSound}

abbrev closed : Breaker
closed = record { fail_streak = 0; skip_until = 0; mode = doh; preferred = codes "8.8.8.8" }

abbrev three_failures : List (ℕ × Event)
three_failures = (second, failure) ∷ (2 * second, failure) ∷ (3 * second, failure) ∷ []

opened : (should_skip (40 * second) (history three_failures closed)).1 ≡ true
unfolding should_skip note_failure
opened = refl

let_through : (should_skip (63 * second) (history three_failures closed)).1 ≡ false
unfolding should_skip note_failure
let_through = refl

closed-IsSound : IsSound closed
closed-IsSound = (λ h. omega arith, λ h. refl)

circuit_example :
    let c = history three_failures closed in
    ((should_skip (40 * second) c).1 ≡ true
      → (doh_fail_threshold ≤ c.fail_streak) × (40 * second < c.skip_until))
    × (doh_fail_threshold ≤ suc c.fail_streak
        → 70 * second < 40 * second + doh_skip_cooldown
        → (should_skip (70 * second) (note_failure (40 * second) c)).1 ≡ true)
    × (c.skip_until ≤ 40 * second
        → c.skip_until ≢ 0
        → let (d, skipped) = should_skip (40 * second) c in
          (skipped ≡ false)
          × ((should_skip (70 * second) (note_failure (70 * second) d)).1 ≡ true)
          × ((should_skip (70 * second) (note_success d)).1 ≡ false)
          × (should_skip (70 * second) d ≡ (d, false)))
circuit_example = circuit three_failures closed (40 * second) (70 * second) closed-IsSound

abbrev endpoints : List Text
endpoints = codes "8.8.8.8" ∷ codes "9.9.9.9" ∷ codes "1.1.1.1" ∷ []

first_alone :
    waves (codes "9.9.9.9") endpoints
    ≡ (codes "9.9.9.9" ∷ [], codes "8.8.8.8" ∷ codes "1.1.1.1" ∷ [])
unfolding waves preferred_first text_eq
first_alone = refl
