-- ===== src/Diag/Failures/Tests.antt =====
-- A journal that is full.
use offveil.Prelude.{
  ℕ, zero, suc, ◌≡◌, refl, Bool, true, false, List, [], ◌∷◌, none, some, codes, length,
}
use offveil.Diag.Failures.{Failure, Disk, record_failure}
use offveil.Diag.Failures.Ring.{Recording, survivors, contents}

abbrev failed : ℕ → Failure
failed n = record {
  at = [];
  component = codes "desync";
  event = codes "unavailable";
  attempt = n;
  target = [];
  provider = [];
  strategy = [];
  reason = [];
  stage = [];
  class = [];
  exit_origin = [];
  from_mode = [];
  to_mode = [];
  fingerprint_before = [];
  fingerprint_after = [];
  version = [];
  generation = 1;
}

-- A disk on which the first attempt to rename fails.
abbrev first_fails : ℕ → Bool
first_fails zero = true
first_fails (suc n) = false

abbrev disk : Disk
disk = record {
  dir_fails = false;
  open_fails = false;
  prepare_fails = false;
  create_fails = false;
  write_fails = false;
  too_large = λ fs. false;
  rename_fails = first_fails;
  windows = true;
}

abbrev calls : List Recording
calls =
    record { disk = disk; version = codes "1"; now = codes "t1"; failure = failed 1 }
    ∷ record {
      disk = record disk { windows = false };
      version = codes "1";
      now = codes "t2";
      failure = failed 2;
    }
    ∷ record { disk = disk; version = codes "1"; now = codes "t3"; failure = failed 3 }
    ∷ []

two_written : length (survivors calls none []) ≡ 2
unfolding survivors record_failure
two_written = refl

-- A journal that cannot be opened is replaced.
abbrev locked : Disk
locked = record disk { open_fails = true }

forgotten :
    length (
      contents
        (record_failure locked
          (codes "1")
          (codes "t4")
          (failed 4)
          (some (failed 1 ∷ failed 2 ∷ []))).0)
    ≡ 1
unfolding record_failure
forgotten = refl
