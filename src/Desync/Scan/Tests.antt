-- ===== src/Desync/Scan/Tests.antt =====
-- A scan with one canary and two hosts to verify.
use offveil.Prelude.{
  ◌≡◌, ◌≢◌, refl, true, false, List, [], ◌∷◌, none, some, codes, text_eq, has_suffix, trim_suffix,
  any, inl, All,
}
use offveil.Desync.Chain.{Strategy, base_id}
use offveil.Desync.Scan.{
  ScanConfig, fail_ok, fail_timeout, live, Check, probed, Arrival, scan, scan_hosts, scan_required,
  scan_candidates, fresh_hosts, first_success, scan_trial, trial_class, required_ok, quorum_passed,
  succeeded,
}
use offveil.Desync.Scan.Winner.{Honest, IsWinner, runs, trial_ok, scan_lem}

abbrev sni : Strategy
sni = record { id = codes "sni"; args = codes "--split" ∷ codes "1+s" ∷ []; note = [] }

abbrev cfg : ScanConfig
cfg = record {
  host = [];
  required = codes "chat.net" ∷ [];
  pass_through = false;
  verify_hosts = codes "a.example" ∷ codes "b.example" ∷ codes "a.example" ∷ [];
  verify_quorum = some 1;
  concurrency = 0;
  candidates = sni ∷ [];
  skip_ids = codes "other" ∷ [];
}

abbrev good : Check
good = record { class = fail_ok; timely = true }

abbrev slow : Check
slow = record { class = fail_timeout; timely = true }

abbrev arrivals : List Arrival
arrivals =
    record { index = 0; strategy = sni; outcome = probed (good ∷ good ∷ slow ∷ []) live live } ∷ []

arrivals-Honest : All (Honest cfg []) arrivals
unfolding scan_hosts scan_required scan_candidates fresh_hosts base_id trim_suffix has_suffix
    text_eq
arrivals-Honest = ((inl refl, (refl, λ h. (refl, (refl, (refl, tt))))), tt)

found : (scan [] cfg live live arrivals).reason ≡ succeeded
unfolding scan scan_hosts scan_required scan_candidates fresh_hosts base_id trim_suffix has_suffix
    text_eq first_success scan_trial trial_class required_ok quorum_passed
found = refl

scan_lem_example :
    ((s : Strategy)
      → (scan [] cfg live live arrivals).found ≡ some s
      → IsWinner cfg [] arrivals s × (live ≡ live))
    × (runs cfg ≡ true
        → live ≡ live
        → any (trial_ok cfg) arrivals ≡ true
        → (scan [] cfg live live arrivals).found ≢ none)
scan_lem_example = scan_lem [] cfg live live arrivals arrivals-Honest
