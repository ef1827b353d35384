-- ===== src/Dns/Cache/Tests.antt =====
-- Witnesses and runs of the DNS cache.
use offveil.Prelude.{
  ℕ, ◌*◌, ◌≡◌, refl, true, false, [], ◌∷◌, some, arith, Text, codes, second, lookup, insert,
  text_eq, to_lower, Each,
}
use offveil.Dns.Message.{Rr, a_data, Question, Msg}
use offveil.Dns.Poison.{PoisonSet, match_poison}
use offveil.Dns.Cache.{
  same_question, least_ttl, store, evict, live, age_dns_response, wait_for, cacheable_ttl, Flight,
  Queries, cached, ask, Landing, land,
}
use offveil.Dns.Cache.Fresh.{IsFresh}
use offveil.Dns.Cache.Answers.{History, start, asks, lands, history-IsFresh, Past}

abbrev question : Question
question = record { name = codes "a.example."; qtype = 1; qclass = 1 }

abbrev query : Msg
query = record {
  id = 0;
  is_response = false;
  truncated = false;
  recursion_available = false;
  opcode = 0;
  rcode = 0;
  signed = false;
  questions = question ∷ [];
  answer = [];
  ns = [];
  extra = [];
}

abbrev address : ℕ → Rr
address ttl = record { name = codes "a.example."; ttl = ttl; rdata = a_data (some 16909060) }

abbrev reply : Msg
reply = record query { is_response = true; answer = address 30 ∷ [] }

abbrev size : Msg → ℕ
size m = 64

abbrev poison : PoisonSet
poison = (3283091970, codes "tr") ∷ []

abbrev key : Text
key = codes "doh:a"

abbrev empty : Queries
empty = record { cache = []; flights = []; generation = 0; next = 0 }

abbrev flight : Flight
flight = record { handle = 0; generation = 0; waiters = 1 }

abbrev landing : Landing
landing = record { query = query; response = some reply; endpoint = codes "one"; late = false }

abbrev full : Queries
full = land size poison false key second flight landing (ask false key second 7 empty).0

-- The answer is kept for the thirty seconds of its record.
kept_for : cacheable_ttl size poison query reply ≡ 30 * second
unfolding cacheable_ttl same_question text_eq to_lower match_poison least_ttl
kept_for = refl

empty-IsFresh : IsFresh poison empty
empty-IsFresh = record { few = omega arith; good = tt; current = tt }

abbrev past : History size poison empty full
past = lands false key second flight landing (asks false key second 7 start)

history-IsFresh_example : IsFresh poison full
history-IsFresh_example = history-IsFresh size poison empty full past empty-IsFresh

-- Ten seconds later the next question is answered with twenty seconds left.
abbrev aged : Msg
aged = record reply { id = 9; answer = address 20 ∷ [] }

cache_hit : (ask false key (11 * second) 9 full).1 ≡ cached aged (codes "one")
unfolding ask land lookup wait_for cacheable_ttl same_question text_eq to_lower match_poison
    least_ttl store insert evict live age_dns_response
cache_hit = refl

full-Past : Each (Past (11 * second)) full.cache
unfolding ask land lookup wait_for cacheable_ttl same_question text_eq to_lower match_poison
    least_ttl store insert evict live
full-Past = (omega arith, tt)
