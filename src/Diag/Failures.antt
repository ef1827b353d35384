-- ===== src/Diag/Failures.antt =====
-- The journal of failures: offveil-core/internal/diag/failures.go. The JSON file is the list that it decodes
-- to; how large a list is when it is encoded, and what the file system refuses, are arguments.
pub mod Ring
mod Tests
use offveil.Prelude.{
  not, ◌||◌, ℕ, zero, suc, ◌-◌, Bool, true, false, Option, none, some, List, [], ◌∷◌, ◌++◌, Text,
  is_empty, length, drop, ltb, if◌then◌else◌,
}

abbrev pub max_failures : ℕ
max_failures = 64

-- Failure, without what is known of the exit of a process.
pub record Failure : Type 0 where
  pub at : Text
  pub component : Text
  pub event : Text
  pub attempt : ℕ
  pub target : Text
  pub provider : Text
  pub strategy : Text
  pub reason : Text
  pub stage : Text
  pub class : Text
  pub exit_origin : Text
  pub from_mode : Text
  pub to_mode : Text
  pub fingerprint_before : Text
  pub fingerprint_after : Text
  pub version : Text
  pub generation : ℕ

-- What stands in the way: each step that can fail, which lists cannot be decoded since their text is longer
-- than the 64 KiB that are read, and which of the attempts to rename fail.
pub record Disk : Type 0 where
  pub dir_fails : Bool
  pub open_fails : Bool
  pub prepare_fails : Bool
  pub create_fails : Bool
  pub write_fails : Bool
  pub too_large : List Failure → Bool
  pub rename_fails : ℕ → Bool
  pub windows : Bool

-- The cut of readFailures and RecordFailure.
abbrev pub newest : List Failure → List Failure
newest history =
    if ltb max_failures (length history)
    then drop (length history - max_failures) history
    else history

abbrev decoded : Disk → Option (List Failure) → List Failure
decoded d none = []
decoded d (some history) = if d.too_large history then [] else newest history

-- readFailures; there may be no file, and one that is there may not be opened or not be decoded.
unfoldable pub read_failures : Disk → Option (List Failure) → List Failure
read_failures d file = if d.dir_fails || d.open_fails then [] else decoded d file

-- The version and the instant are filled in where they are missing.
abbrev pub filled : Text → Text → Failure → Failure
filled version now f = record f {
  version = if is_empty f.version then version else f.version;
  at = if is_empty f.at then now else f.at;
}

-- The attempts to rename; `left` more follow the first.
unfoldable pub rename_loop : Disk → ℕ → ℕ → Bool
rename_loop d attempt zero = not (d.rename_fails attempt)
rename_loop d attempt (suc left) =
    let later = rename_loop d (suc attempt) left in
    if d.rename_fails attempt then (if d.windows then later else false) else true

-- What RecordFailure does with the new list.
abbrev pub save_history : Disk → List Failure → Option (List Failure) → Option (List Failure) × Bool
save_history d history file =
    if d.dir_fails || d.prepare_fails || d.create_fails || d.write_fails || not (rename_loop d 0 4)
    then (file, false)
    else (some history, true)

-- RecordFailure: the file that is left, and whether no error was returned.
unfoldable pub record_failure :
    Disk → Text → Text → Failure → Option (List Failure) → Option (List Failure) × Bool
unfolding read_failures rename_loop
record_failure d version now f file =
    save_history d (newest (read_failures d file ++ (filled version now f ∷ []))) file
