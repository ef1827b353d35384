-- ===== src/Prelude/Clock.antt =====
-- Instants and durations in nanoseconds, as `time.Time` and `time.Duration` count them. The zero
-- instant is 0; `time.Since` of an instant in the future is 0 here and negative in Go, which no
-- comparison with a duration that is not negative tells apart.
use Prim.Native.Nat.{ℕ, ◌*◌}

abbrev pub millisecond : ℕ
millisecond = 1_000_000

abbrev pub second : ℕ
second = 1_000_000_000

abbrev pub minute : ℕ
minute = 60 * second

abbrev pub hour : ℕ
hour = 60 * minute
