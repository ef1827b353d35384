-- ===== src/Dns/Cache.antt =====
-- The cache of the DoH client and the questions in flight: offveil-core/internal/dns/doh_cache.go, one function for each locked
-- section. A flight is known by a handle; the source compares pointers.
pub mod Ttl
pub mod Fresh
pub mod Sections
pub mod Answers
mod Tests
use offveil.Prelude.{
  ℕ, suc, ◌+◌, ◌-◌, ◌*◌, ◌/◌, Bool, true, false, not, ◌&&◌, ◌||◌, List, [], ◌∷◌, ◌++◌, Option, none,
  some, Text, text_eq, to_lower, length, is_empty, leb, ltb, ◌==◌, any, map, lookup, insert, delete,
  ◌≡◌, if◌then◌else◌, second, minute,
}
use offveil.Dns.Message.{Rr, RrData, a_data, opt_data, Question, Msg, rcode_success}
use offveil.Dns.Poison.{PoisonSet, match_poison}

abbrev pub doh_cache_entries : ℕ
doh_cache_entries = 256

abbrev pub doh_cache_max_ttl : ℕ
doh_cache_max_ttl = minute

abbrev pub doh_cache_max_size : ℕ
doh_cache_max_size = 4096

abbrev pub is_opt : RrData → Bool
is_opt opt_data = true
is_opt _ = false

abbrev hit : Option Text → Bool
hit none = false
hit (some id) = true

abbrev pub poisoned_data : PoisonSet → RrData → Bool
poisoned_data poison (a_data (some addr)) = hit (match_poison poison addr)
poisoned_data poison _ = false

-- The least of `limit` and the times to live of a section, without OPT.
unfoldable pub least_ttl : ℕ → List Rr → ℕ
least_ttl limit [] = limit
least_ttl limit (rr ∷ rrs) =
    if not (is_opt rr.rdata) && ltb (rr.ttl * second) limit
    then least_ttl (rr.ttl * second) rrs
    else least_ttl limit rrs

-- EqualFold on ASCII names.
unfoldable pub same_question : List Question → List Question → Bool
same_question (q ∷ qs) (r ∷ []) =
    text_eq (to_lower q.name) (to_lower r.name) && q.qtype == r.qtype && q.qclass == r.qclass
same_question _ _ = false

-- The tests of cacheableTTL; `size` is the length of a message on the wire.
unfoldable pub is_cacheable : (Msg → ℕ) → PoisonSet → Msg → Msg → Bool
is_cacheable size poison query m =
    m.is_response
    && not m.truncated
    && not m.signed
    && m.opcode == query.opcode
    && m.rcode == rcode_success
    && not (is_empty m.answer)
    && leb (size m) doh_cache_max_size
    && same_question query.questions m.questions
    && not (any (λ rr. poisoned_data poison rr.rdata) m.answer)

-- cacheableTTL.
unfoldable pub cacheable_ttl : (Msg → ℕ) → PoisonSet → Msg → Msg → ℕ
unfolding is_cacheable
cacheable_ttl size poison query m =
    if is_cacheable size poison query m
    then least_ttl doh_cache_max_ttl (m.answer ++ m.ns ++ m.extra)
    else 0

abbrev pub age_record : ℕ → Rr → Rr
age_record age rr = if is_opt rr.rdata then rr else record rr { ttl = rr.ttl - age }

-- ageDNSResponse.
unfoldable pub age_dns_response : ℕ → Msg → Msg
age_dns_response age m = record m {
  answer = map (age_record age) m.answer;
  ns = map (age_record age) m.ns;
  extra = map (age_record age) m.extra;
}

pub record Entry : Type 0 where
  pub response : Msg
  pub endpoint : Text
  pub stored : ℕ
  pub expires : ℕ

-- A question in flight: the caller that started it waits with the others.
pub record Flight : Type 0 where
  pub handle : ℕ
  pub generation : ℕ
  pub waiters : ℕ

-- The fields under `queriesMu`, and the next handle.
pub record Queries : Type 0 where
  pub cache : List (Text × Entry)
  pub flights : List (Text × Flight)
  pub generation : ℕ
  pub next : ℕ

-- What a caller gets: a copy of a cached answer under its own id, or a flight to wait for.
pub data Asked : Type 0 where
  cached : Msg → Text → Asked
  waits : Flight → Asked

abbrev pub serve : ℕ → ℕ → Entry → Asked
serve now id e =
    cached (record (age_dns_response ((now - e.stored) / second) e.response) { id = id }) e.endpoint

abbrev pub join : Text → Flight → Queries → Queries × Asked
join key f c =
    let g = record f { waiters = suc f.waiters } in
    (record c { flights = insert key g c.flights }, waits g)

abbrev pub start_flight : Text → Queries → Queries × Asked
start_flight key c =
    join key (record { handle = c.next; generation = c.generation; waiters = 0 })
      (record c { next = suc c.next })

abbrev pub wait_on : Text → Option Flight → Queries → Queries × Asked
wait_on key none c = start_flight key c
wait_on key (some f) c = join key f c

unfoldable pub wait_for : Text → Queries → Queries × Asked
wait_for key c = wait_on key (lookup key c.flights) c

abbrev pub ask_cached : Text → ℕ → ℕ → Option Entry → Queries → Queries × Asked
ask_cached key now id none c = wait_for key c
ask_cached key now id (some e) c =
    if ltb now e.expires
    then (c, serve now id e)
    else wait_for key (record c { cache = delete key c.cache })

-- The locked section of exchangeShared. A plain question has a key of its own and never looks at
-- the cache.
unfoldable pub ask : Bool → Text → ℕ → ℕ → Queries → Queries × Asked
ask plain key now id c =
    if plain then wait_for key c else ask_cached key now id (lookup key c.cache) c

-- What is left of the cache after the expired entries are gone.
unfoldable pub live : ℕ → List (Text × Entry) → List (Text × Entry)
live now [] = []
live now ((k, e) ∷ es) = let rest = live now es in if ltb now e.expires then (k, e) ∷ rest else rest

abbrev pub nearer : Text × Entry → Option (Text × Entry) → Option (Text × Entry)
nearer (k, e) none = some (k, e)
nearer (k, e) (some (j, o)) = if ltb o.expires e.expires then some (j, o) else some (k, e)

-- The entry with the nearest expiry; the source takes any of several with the same one.
unfoldable pub oldest : List (Text × Entry) → Option (Text × Entry)
oldest [] = none
oldest ((k, e) ∷ es) = nearer (k, e) (oldest es)

abbrev pub drop : Option (Text × Entry) → List (Text × Entry) → List (Text × Entry)
drop none es = es
drop (some (k, e)) es = delete k es

unfoldable pub evict : List (Text × Entry) → List (Text × Entry)
evict es = if leb doh_cache_entries (length es) then drop (oldest es) es else es

unfoldable pub store : Text → Msg → Text → ℕ → ℕ → Queries → Queries
store key m endpoint now ttl c =
    let e : Entry = record {
      response = m;
      endpoint = endpoint;
      stored = now;
      expires = now + ttl;
    } in
    record c { cache = insert key e (evict (live now c.cache)) }

abbrev pub is_flight : Flight → Option Flight → Bool
is_flight f none = false
is_flight f (some g) = g.handle == f.handle

abbrev pub detach : Text → Flight → Queries → Queries
detach key f c =
    if is_flight f (lookup key c.flights) then record c { flights = delete key c.flights } else c

-- What a flight brought: an answer, or an error; `late` says that its context is done.
pub record Landing : Type 0 where
  pub query : Msg
  pub response : Option Msg
  pub endpoint : Text
  pub late : Bool

abbrev pub keep_if_fresh : (Msg → ℕ) → PoisonSet → Text → Text → ℕ → Msg → Msg → Queries → Queries
keep_if_fresh size poison key endpoint now query m c =
    let ttl = cacheable_ttl size poison query m in
    if ltb 0 ttl then store key m endpoint now ttl c else c

abbrev pub land_response :
    (Msg → ℕ) → PoisonSet → Bool → Text → ℕ → Flight → Landing → Option Msg → Queries → Queries
land_response size poison plain key now f l none c = detach key f c
land_response size poison plain key now f l (some m) c =
    if plain || l.late || not (f.generation == c.generation)
    then detach key f c
    else keep_if_fresh size poison key l.endpoint now l.query m (detach key f c)

-- The locked section of resolveFlight.
unfoldable pub land : (Msg → ℕ) → PoisonSet → Bool → Text → ℕ → Flight → Landing → Queries → Queries
land size poison plain key now f l c = land_response size poison plain key now f l l.response c

abbrev pub leave : Flight → Flight → Text → Queries → Queries
leave f g key c =
    if not (g.handle == f.handle)
    then c
    else if leb g.waiters 1
    then record c { flights = delete key c.flights }
    else record c { flights = insert key (record g { waiters = g.waiters - 1 }) c.flights }

-- releaseFlight for a flight that questions still join; a detached one is known to its waiters only.
abbrev pub leave_flight : Flight → Option Flight → Text → Queries → Queries
leave_flight f none key c = c
leave_flight f (some g) key c = leave f g key c

unfoldable pub release : Text → Flight → Queries → Queries
release key f c = leave_flight f (lookup key c.flights) key c

-- The part of ResetCache under `queriesMu`.
unfoldable pub reset_cache : Queries → Queries
reset_cache c = record c { generation = suc c.generation; cache = []; flights = [] }
