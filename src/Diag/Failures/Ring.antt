-- ===== src/Diag/Failures/Ring.antt =====
-- The journal is a ring.
use offveil.Prelude.{
  ◌-◌, ◌≡◌, Bool, true, Option, none, some, List, [], ◌∷◌, ◌++◌, Text, length, drop, ltb,
  if◌then◌else◌, ◌&&◌, not,
}
use offveil.Diag.Failures.{Failure, Disk, max_failures, newest, filled, record_failure}

-- A list that is longer loses its first entry for the one that comes.
module _ (xs : List Failure) (x : Failure) (long : ltb max_failures (length xs) ≡ true) where
  abbrev kept : List Failure
  kept = drop (length xs - max_failures) xs

-- The failures that were given to RecordFailure, with the disk and the clock of each call.
pub record Recording : Type 0 where
  pub disk : Disk
  pub version : Text
  pub now : Text
  pub failure : Failure

unfoldable pub record_all : List Recording → Option (List Failure) → Option (List Failure)
unfolding record_failure
record_all [] file = file
record_all (r ∷ rs) file = record_all rs (record_failure r.disk r.version r.now r.failure file).0

abbrev pub contents : Option (List Failure) → List Failure
contents none = []
contents (some fs) = fs

-- A file that is there can be opened and decoded.
abbrev pub can_read : Disk → Option (List Failure) → Bool
can_read d none = true
can_read d (some fs) = not d.open_fails && not (d.too_large fs)

-- What is left to report behind a call: nothing changes where it returned an error, and everything that
-- was there is lost where the file could not be read.
abbrev pub kept_with : Bool → Bool → Failure → List Failure → List Failure
kept_with ok readable x log = if ok then (if readable then log ++ (x ∷ []) else x ∷ []) else log

unfoldable pub survivors : List Recording → Option (List Failure) → List Failure → List Failure
unfolding record_failure
survivors [] file log = log
survivors (r ∷ rs) file log =
    let (next, ok) = record_failure r.disk r.version r.now r.failure file in
    survivors rs next (kept_with ok (can_read r.disk file) (filled r.version r.now r.failure) log)

abbrev IsOutcome : Bool → Failure → List Failure → Option (List Failure) × Bool → Type 0
IsOutcome readable x log (next, ok) = contents next ≡ newest (kept_with ok readable x log)
