-- ===== src/Desync/Scan.antt =====
-- The scan for a strategy that works: offveil-core/internal/desync/scan.go. The helpers of a scan run side by
-- side; how each trial went, and in which order they came in, are arguments.
pub mod Trial
pub mod Winner
mod Tests
use offveil.Prelude.{
  ℕ, suc, ◌*◌, ◌≡◌, Bool, true, false, not, ◌&&◌, ◌||◌, List, [], ◌∷◌, ◌++◌, Option, none, some,
  Text, codes, text_eq, is_empty, length, take, drop, count_if, ltb, leb, ◌==◌, if◌then◌else◌,
  second, map,
}
use offveil.Ruleset.Hosts.{member}
use offveil.Desync.Chain.{Strategy, base_id, pass_through_first}

-- FailClass.
pub data FailClass : Type 0 where
  fail_timeout fail_ssl_err fail_reset fail_ok : FailClass

abbrev pub is_ok : FailClass → Bool
is_ok fail_ok = true
is_ok _ = false

-- ScanConfig, with a quorum that is none where the source has a negative one.
pub record ScanConfig : Type 0 where
  pub host : Text
  pub required : List Text
  pub pass_through : Bool
  pub verify_hosts : List Text
  pub verify_quorum : Option ℕ
  pub concurrency : ℕ
  pub candidates : List Strategy
  pub skip_ids : List Text

-- The reasons of a result and of a trial.
pub data Reason : Type 0 where
  missing_targets invalid_quorum timeout canceled succeeded no_candidates exhausted : Reason
  startup_failed no_session no_reason : Reason

-- The hosts that are not empty and not seen before, each of them once.
unfoldable pub fresh_hosts : List Text → List Text → List Text
fresh_hosts seen [] = []
fresh_hosts seen (h ∷ hs) =
    if is_empty h || member h seen then fresh_hosts seen hs else h ∷ fresh_hosts (h ∷ seen) hs

abbrev first_of : List Text → Text
first_of [] = []
first_of (h ∷ hs) = h

-- `cfg.Host`, or the first host to verify where there is nothing else.
abbrev pub main_host : ScanConfig → Text
main_host cfg =
    if is_empty cfg.host && is_empty cfg.required then first_of cfg.verify_hosts else cfg.host

unfoldable pub scan_hosts : ScanConfig → List Text
scan_hosts cfg =
    let host = main_host cfg in
    let first : List Text = if is_empty host then [] else host ∷ [] in
    first ++ fresh_hosts first cfg.verify_hosts

unfoldable pub scan_required : ScanConfig → List Text
scan_required cfg = fresh_hosts (scan_hosts cfg) cfg.required

-- What a candidate is tried as, if it is tried.
unfoldable pub scan_candidates : ScanConfig → List Strategy → List Strategy
scan_candidates cfg [] = []
scan_candidates cfg (s ∷ ss) =
    if is_empty s.id || is_empty s.args || member (base_id s.id) cfg.skip_ids
    then scan_candidates cfg ss
    else (if cfg.pass_through then pass_through_first s else s) ∷ scan_candidates cfg ss

-- How many helpers run at the same time.
unfoldable pub workers : ℕ → ℕ → ℕ
workers concurrency candidates =
    let wanted = if concurrency == 0 then 2 else concurrency in
    let bounded = if ltb 4 wanted then 4 else wanted in
    if ltb candidates bounded then candidates else bounded

-- The state of a context: it goes on, it was canceled, or its time is over.
pub data Fate : Type 0 where
  live was_canceled expired : Fate

abbrev pub is_live : Fate → Bool
is_live live = true
is_live _ = false

-- One probe: its class, and whether the trial's context went on when it came back.
pub record Check : Type 0 where
  pub class : FailClass
  pub timely : Bool

-- How a trial went: the helper did not start, or the probes of the required hosts and of the others,
-- with the contexts of the trial and of the scan behind them.
pub data Outcome : Type 0 where
  start_fails : Fate → Outcome
  starts_nothing : Outcome
  probed : List Check → Fate → Fate → Outcome

-- Tried without its texts.
pub record Tried : Type 0 where
  pub strategy_id : Text
  pub class : FailClass
  pub reason : Reason

abbrev pub timely_ok : Check → Bool
timely_ok c = is_ok c.class && c.timely

abbrev pub is_open : Check → Bool
is_open c = is_ok c.class

abbrev pub first_failure : List Check → FailClass
first_failure [] = fail_ok
first_failure (c ∷ cs) = if is_ok c.class then first_failure cs else c.class

abbrev pub quorum_or : Option ℕ → ℕ → ℕ
quorum_or none hosts = hosts
quorum_or (some q) hosts = if q == 0 then hosts else q

abbrev pub reaches : Option ℕ → ℕ → Bool
reaches none timely = false
reaches (some q) timely = ltb 0 q && leb q timely

-- Every required host was open in time.
unfoldable pub required_ok : ℕ → List Check → Bool
required_ok required checks = count_if timely_ok (take required checks) == required

-- Enough hosts were open in time, with the required ones, while the scan goes on.
unfoldable pub quorum_passed : Option ℕ → ℕ → List Check → Fate → Bool
unfolding required_ok
quorum_passed quorum required checks scan =
    reaches quorum (count_if timely_ok (drop required checks))
    && required_ok required checks
    && is_live scan

-- The class of a trial with `required` required hosts and `hosts` others.
unfoldable pub trial_class : Option ℕ → ℕ → ℕ → List Check → Fate → Fate → FailClass
unfolding required_ok quorum_passed
trial_class quorum required hosts checks trial scan =
    let open_hosts = count_if is_open (drop required checks) in
    let c1 =
      if leb (quorum_or quorum hosts) open_hosts && required_ok required checks
      then fail_ok
      else first_failure checks in
    let c2 = if is_live trial then c1 else fail_timeout in
    let c3 = if quorum_passed quorum required checks scan then fail_ok else c2 in
    if not (required_ok required checks) && is_ok c3 then fail_timeout else c3

abbrev pub reason_for : Fate → Bool → Reason
reason_for live passed = no_reason
reason_for was_canceled passed = if passed then no_reason else canceled
reason_for expired passed = if passed then no_reason else timeout

abbrev start_reason : Fate → Reason
start_reason was_canceled = canceled
start_reason _ = startup_failed

-- scanTrial.
unfoldable pub scan_trial : Option ℕ → ℕ → ℕ → Strategy → Outcome → Tried × Bool
unfolding trial_class quorum_passed
scan_trial quorum required hosts s (start_fails trial) =
    (record { strategy_id = s.id; class = fail_timeout; reason = start_reason trial }, false)
scan_trial quorum required hosts s starts_nothing =
    (record { strategy_id = s.id; class = fail_timeout; reason = no_session }, false)
scan_trial quorum required hosts s (probed checks trial scan) =
    let class = trial_class quorum required hosts checks trial scan in
    let reason = reason_for trial (quorum_passed quorum required checks scan) in
    (record { strategy_id = s.id; class = class; reason = reason }, is_ok class)

-- A trial that came in, with the place of its candidate.
pub record Arrival : Type 0 where
  pub index : ℕ
  pub strategy : Strategy
  pub outcome : Outcome

pub record ScanResult : Type 0 where
  pub found : Option Strategy
  pub tried : List Tried
  pub reason : Reason

-- The strategy of the first arrival that succeeded.
unfoldable pub first_success : Option ℕ → ℕ → ℕ → List Arrival → Option Strategy
unfolding scan_trial
first_success quorum required hosts [] = none
first_success quorum required hosts (a ∷ later) =
    if (scan_trial quorum required hosts a.strategy a.outcome).1
    then some a.strategy
    else first_success quorum required hosts later

-- `sort.Slice` by the place of the candidates.
abbrev pub place_in : Arrival → List Arrival → List Arrival
place_in a [] = a ∷ []
place_in a (b ∷ bs) = if ltb b.index a.index then b ∷ place_in a bs else a ∷ b ∷ bs

abbrev pub by_index : List Arrival → List Arrival
by_index [] = []
by_index (a ∷ later) = place_in a (by_index later)

abbrev pub reason_found : Option Strategy → ℕ → Fate → Reason
reason_found (some s) candidates scan = succeeded
reason_found none candidates scan =
    if candidates == 0 then no_candidates else if is_live scan then exhausted else timeout

-- The switch behind the results; `caller` is the caller's context and `scan` the scan's, before it won.
abbrev pub conclude : Fate → Fate → ℕ → Option Strategy → List Tried → ScanResult
conclude live scan candidates found tried = record {
  found = found;
  tried = tried;
  reason = reason_found found candidates scan;
}
conclude was_canceled scan candidates found tried = record {
  found = none;
  tried = tried;
  reason = canceled;
}
conclude expired scan candidates found tried = record {
  found = none;
  tried = tried;
  reason = timeout;
}

abbrev pub refused : Reason → ScanResult
refused reason = record { found = none; tried = []; reason = reason }

abbrev pub bad_quorum : Option ℕ → ℕ → Bool
bad_quorum none hosts = true
bad_quorum (some q) hosts = ltb hosts q

abbrev pub tried_of : ScanConfig → List Arrival → List Tried
tried_of cfg arrivals =
    map
      (λ a.
        (scan_trial cfg.verify_quorum (length (scan_required cfg)) (length (scan_hosts cfg))
          a.strategy a.outcome).0)
      (by_index arrivals)

-- The candidates of the configuration, or those of this system.
abbrev pub candidates_or : List Strategy → List Strategy → List Strategy
candidates_or native [] = native
candidates_or native (s ∷ ss) = s ∷ ss

-- Scan, with the trials in the order in which they came in.
unfoldable pub scan : List Strategy → ScanConfig → Fate → Fate → List Arrival → ScanResult
scan native cfg caller budget arrivals =
    if is_empty cfg.host && is_empty cfg.required && is_empty cfg.verify_hosts
    then refused missing_targets
    else if bad_quorum cfg.verify_quorum (length (scan_hosts cfg))
    then refused invalid_quorum
    else conclude caller budget (length (scan_candidates cfg (candidates_or native cfg.candidates)))
        (first_success cfg.verify_quorum (length (scan_required cfg)) (length (scan_hosts cfg))
          arrivals)
        (tried_of cfg arrivals)
