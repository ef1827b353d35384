-- ===== src/Dns/Breaker.antt =====
-- The circuit breaker of the DoH client and the choice of its endpoints: offveil-core/internal/dns/doh.go, noteSuccess,
-- noteFailure, shouldSkip, Mode and exchange. An instant is a number, and 0 is the zero instant.
pub mod Circuit
pub mod Endpoints
mod Tests
use offveil.Prelude.{
  ℕ, suc, ◌+◌, ◌*◌, Bool, true, false, not, ◌||◌, List, [], ◌∷◌, Option, none, some, Text, codes,
  text_eq, length, leb, ltb, ◌==◌, ◌≡◌, if◌then◌else◌, second, is_empty,
}

abbrev pub doh_fail_threshold : ℕ
doh_fail_threshold = 3

abbrev pub doh_skip_cooldown : ℕ
doh_skip_cooldown = 60 * second

pub data Mode : Type 0 where
  doh plain_skip recovering : Mode

-- The part of DoHClient under `mu`.
pub record Breaker : Type 0 where
  pub fail_streak : ℕ
  pub skip_until : ℕ
  pub mode : Mode
  pub preferred : Text

unfoldable pub note_success : Breaker → Breaker
note_success b = record b { fail_streak = 0; skip_until = 0; mode = doh }

unfoldable pub note_failure : ℕ → Breaker → Breaker
note_failure now b =
    let streak = suc b.fail_streak in
    if leb doh_fail_threshold streak
    then record b { fail_streak = streak; skip_until = now + doh_skip_cooldown; mode = plain_skip }
    else record b { fail_streak = streak }

-- shouldSkip: the first question after the cooldown clears `skip_until`.
unfoldable pub should_skip : ℕ → Breaker → Breaker × Bool
should_skip now b =
    if b.skip_until == 0
    then (b, false)
    else if ltb now b.skip_until
    then (b, true)
    else (record b { skip_until = 0; mode = recovering; fail_streak = 2 }, false)

-- Mode.
unfoldable pub reported_mode : ℕ → Breaker → Mode
reported_mode now b = if ltb now b.skip_until then plain_skip else b.mode

-- The endpoints that exchange starts at once, and those that it keeps for later.
unfoldable pub preferred_first : Text → List Text → List Text × List Text
preferred_first preferred [] = ([], [])
preferred_first preferred (ep ∷ eps) =
    let (first, fallbacks) = preferred_first preferred eps in
    if text_eq ep preferred then (ep ∷ first, fallbacks) else (first, ep ∷ fallbacks)

unfoldable pub waves : Text → List Text → List Text × List Text
waves preferred endpoints =
    let (first, fallbacks) = preferred_first preferred endpoints in
    if length fallbacks == length endpoints then (fallbacks, []) else (first, fallbacks)

-- How the race of the endpoints ends: one answers, none does, or the context ends first; `canceled`
-- says that the caller gave up.
pub data Race : Type 0 where
  answers : Text → Race
  fails : Bool → Race

abbrev count_failure : Bool → ℕ → Breaker → Breaker
count_failure canceled now b = if canceled then b else note_failure now b

abbrev run_race : Race → ℕ → Breaker → Breaker × Option Text
run_race (answers ep) now b = (record (note_success b) { preferred = ep }, some ep)
run_race (fails canceled) now b = (count_failure canceled now b, none)

-- exchange: the endpoint that answered, if one did.
unfoldable pub exchange : List Text → ℕ → ℕ → Race → Breaker → Breaker × Option Text
unfolding should_skip note_success note_failure
exchange endpoints now later race b =
    let (b1, skipped) = should_skip now b in
    if skipped || is_empty endpoints then (b1, none) else run_race race later b1

-- The part of ResetCache under `mu`.
abbrev pub reset_breaker : Breaker → Breaker
reset_breaker b = record b { preferred = []; fail_streak = 0; skip_until = 0; mode = doh }
