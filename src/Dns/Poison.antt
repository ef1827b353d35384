-- ===== src/Dns/Poison.antt =====
-- Known censorship answers: offveil-core/internal/dns/poison.go, and filterPoisonAnswers of plain.go.
use offveil.Prelude.{
  ℕ, List, [], ◌∷◌, ◌++◌, Option, none, some, Text, codes, text_eq, if◌then◌else◌, ◌==◌,
}
use offveil.Netip.{parse_ipv4}
use offveil.Dns.Message.{Rr, RrData, a_data}

-- A map from addresses to the ids of fingerprints.
abbrev pub PoisonSet : Type 0
PoisonSet = List (ℕ × Text)

-- Match.
unfoldable pub match_poison : PoisonSet → ℕ → Option Text
match_poison [] addr = none
match_poison ((a, id) ∷ ips) addr = if a == addr then some id else match_poison ips addr

abbrev default_poison_ips : List Text
default_poison_ips =
    codes "195.175.254.2"
    ∷ codes "193.192.98.41"
    ∷ codes "193.192.98.42"
    ∷ codes "193.192.98.43"
    ∷ codes "193.192.98.45"
    ∷ codes "193.192.98.46"
    ∷ codes "193.192.98.47"
    ∷ codes "193.192.98.48"
    ∷ codes "193.192.98.49"
    ∷ []

abbrev default_id : Text → Text
default_id raw =
    if text_eq raw (codes "195.175.254.2") then codes "ooni.tr_6" else codes "tr:" ++ raw

unfoldable pub parse_set : (Text → Text) → List Text → PoisonSet
unfolding parse_ipv4
parse_set name [] = []
parse_set name (raw ∷ raws) = elim (parse_ipv4 raw) [
  | none ↦ parse_set name raws
  | some addr ↦ (addr, name raw) ∷ parse_set name raws
]

-- DefaultPoisonSet.
unfoldable pub default_poison_set : PoisonSet
default_poison_set = parse_set default_id default_poison_ips

-- WithExtra: an address that is there keeps its id, so that the new ones stand behind. The text of
-- an IPv4 address is the one that it was parsed from.
unfoldable pub with_extra : List Text → PoisonSet → PoisonSet
with_extra raws ips = ips ++ parse_set (λ raw. codes "ruleset:" ++ raw) raws

-- MatchAny and ContainsPoison.
unfoldable pub match_any : PoisonSet → List ℕ → Option (ℕ × Text)
match_any ips [] = none
match_any ips (a ∷ addrs) = elim (match_poison ips a) [
  | some id ↦ some (a, id)
  | none ↦ match_any ips addrs
]

pub record Filtered : Type 0 where
  pub clean : List Rr
  pub poison_id : Option Text

-- What the loop does with one record: it stays, it goes, or it goes as poison.
pub data Verdict : Type 0 where
  stays goes : Verdict
  poisons : Text → Verdict

abbrev pub poisoned_or : Option Text → Verdict
poisoned_or none = stays
poisoned_or (some id) = poisons id

abbrev pub judge_data : PoisonSet → RrData → Verdict
judge_data ips (a_data none) = goes
judge_data ips (a_data (some addr)) = poisoned_or (match_poison ips addr)
judge_data ips _ = stays

unfoldable pub judge : PoisonSet → Rr → Verdict
judge ips rr = judge_data ips rr.rdata

abbrev pub later_or : Option Text → Text → Option Text
later_or none id = some id
later_or (some last) id = some last

abbrev pub keep_record : Verdict → Rr → Filtered → Filtered
keep_record stays rr rest = record rest { clean = rr ∷ rest.clean }
keep_record goes rr rest = rest
keep_record (poisons id) rr rest = record rest { poison_id = later_or rest.poison_id id }

-- filterPoisonAnswers; the id is that of the last poisoned answer.
unfoldable pub filter_poison_answers : PoisonSet → List Rr → Filtered
filter_poison_answers ips [] = record { clean = []; poison_id = none }
filter_poison_answers ips (rr ∷ rrs) = keep_record (judge ips rr) rr (filter_poison_answers ips rrs)
