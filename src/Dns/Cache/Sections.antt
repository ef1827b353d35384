-- ===== src/Dns/Cache/Sections.antt =====
-- Each locked section keeps the cache fresh.
use offveil.Prelude.{
  ℕ, suc, ◌+◌, ◌-◌, ◌≡◌, refl, Bool, true, false, not, ◌||◌, List, Option, none, some, arith, Text,
  ltb, leb, is_empty, any, lookup, insert, delete, Each, Each-insert, Each-delete, Each-lookup,
  length-insert-le, length-delete-le, Bool-cases, inl, inr, ◌==◌,
}
use offveil.Dns.Message.{Msg}
use offveil.Dns.Poison.{PoisonSet}
use offveil.Dns.Cache.{
  is_cacheable, cacheable_ttl, Entry, Flight, Queries, wait_for, join, ask_cached, ask, live, evict,
  store, detach, Landing, is_flight, wait_on, land_response, leave_flight, keep_if_fresh, land,
  release,
}
use offveil.Dns.Cache.Ttl.{Lasts-le, sections, cacheable_ttl-Lasts}
use offveil.Dns.Cache.Fresh.{
  is_poisoned, IsGood, Current, IsFresh, live-le, live-IsGood, evict-less, evict-IsGood,
}

store-IsFresh :
    (poison : PoisonSet) (key endpoint : Text) (m : Msg) (now ttl : ℕ) (c : Queries)
    → IsFresh poison c
    → IsGood poison
        (record { response = m; endpoint = endpoint; stored = now; expires = now + ttl })
    → IsFresh poison (store key m endpoint now ttl c)
unfolding store
store-IsFresh poison key endpoint m now ttl c f g =
    let e : Entry = record {
      response = m;
      endpoint = endpoint;
      stored = now;
      expires = now + ttl;
    } in
    let left = live now c.cache in
    let less = evict-less left (ground (arith, live-le now c.cache, f.few)) in
    record {
      few = ground (arith, length-insert-le key e (evict left), less);
      good =
          Each-insert (IsGood poison) key e (evict left) g
            (evict-IsGood poison left (live-IsGood poison now c.cache f.good));
      current = f.current;
    }

passed :
    (size : Msg → ℕ) (poison : PoisonSet) (query m : Msg)
    → ltb 0 (cacheable_ttl size poison query m) ≡ true
    → (is_empty m.answer ≡ false) × (any (is_poisoned poison) m.answer ≡ false)
unfolding cacheable_ttl is_cacheable
passed size poison query m h = ground (arith, h)

cacheable-IsGood :
    (size : Msg → ℕ) (poison : PoisonSet) (query m : Msg) (endpoint : Text) (now : ℕ)
    → ltb 0 (cacheable_ttl size poison query m) ≡ true
    → IsGood poison (record {
      response = m;
      endpoint = endpoint;
      stored = now;
      expires = now + cacheable_ttl size poison query m;
    })
cacheable-IsGood size poison query m endpoint now h =
    let (short, lasts) = cacheable_ttl-Lasts size poison query m in
    let (answered, clean) = passed size poison query m h in
    record {
      short = ground (arith, short);
      lasts = Lasts-le _ (cacheable_ttl size poison query m) (sections m) (omega arith) lasts;
      answered = answered;
      clean = clean;
    }

-- A change of the flights alone.
fly :
    (poison : PoisonSet) (c : Queries) (flights : List (Text × Flight))
    → IsFresh poison c
    → Each (Current c.generation) flights
    → IsFresh poison (record c { flights = flights })
fly poison c flights h current = record { few = h.few; good = h.good; current = current }

detach-IsFresh :
    (poison : PoisonSet) (key : Text) (f : Flight) (c : Queries)
    → IsFresh poison c
    → IsFresh poison (detach key f c)
detach-IsFresh poison key f c h = elim (Bool-cases (is_flight f (lookup key c.flights))) [
  | inl t ↦ simp t (
      fly poison c (delete key c.flights) h
        (Each-delete (Current c.generation) key c.flights h.current))
  | inr t ↦ simp t h
]

pub detach-cache :
    (key : Text) (f : Flight) (c : Queries)
    → ((detach key f c).cache ≡ c.cache) × ((detach key f c).generation ≡ c.generation)
detach-cache key f c = ground arith

keep-IsFresh :
    (size : Msg → ℕ) (poison : PoisonSet) (key endpoint : Text) (now : ℕ) (query m : Msg)
    (c : Queries)
    → IsFresh poison c
    → IsFresh poison (keep_if_fresh size poison key endpoint now query m c)
keep-IsFresh size poison key endpoint now query m c h =
    elim (Bool-cases (ltb 0 (cacheable_ttl size poison query m))) [
      | inl t ↦ simp t (
          store-IsFresh poison key endpoint m now (cacheable_ttl size poison query m) c h
            (cacheable-IsGood size poison query m endpoint now t))
      | inr t ↦ simp t h
    ]

pub land-IsFresh :
    (size : Msg → ℕ) (poison : PoisonSet) (plain : Bool) (key : Text) (now : ℕ) (f : Flight)
    (l : Landing) (c : Queries)
    → IsFresh poison c
    → IsFresh poison (land size poison plain key now f l c)
unfolding land
land-IsFresh size poison plain key now f l c h = landed l.response
  where
    kept : IsFresh poison (detach key f c)
    kept = detach-IsFresh poison key f c h

    landed : (r : Option Msg) → IsFresh poison (land_response size poison plain key now f l r c)
    landed none = kept
    landed (some m) = elim (Bool-cases (plain || l.late || not (f.generation == c.generation))) [
      | inl t ↦ simp t kept
      | inr t ↦ simp t (keep-IsFresh size poison key l.endpoint now l.query m (detach key f c) kept)
    ]

join-IsFresh :
    (poison : PoisonSet) (key : Text) (f : Flight) (c : Queries)
    → IsFresh poison c
    → f.generation ≡ c.generation
    → IsFresh poison (join key f c).0
join-IsFresh poison key f c h g =
    let joined = record f { waiters = suc f.waiters } in
    fly poison c (insert key joined c.flights) h
      (Each-insert (Current c.generation) key joined c.flights g h.current)

wait_for-IsFresh :
    (poison : PoisonSet) (key : Text) (c : Queries)
    → IsFresh poison c
    → IsFresh poison (wait_for key c).0
unfolding wait_for
wait_for-IsFresh poison key c h = waited (lookup key c.flights) refl
  where
    waited : (o : Option Flight) → lookup key c.flights ≡ o → IsFresh poison (wait_on key o c).0
    waited none e =
        join-IsFresh poison key (record { handle = c.next; generation = c.generation; waiters = 0 })
          (record c { next = suc c.next })
          (record { few = h.few; good = h.good; current = h.current }) refl
    waited (some f) e =
        join-IsFresh poison key f c h
          (Each-lookup (Current c.generation) key c.flights f h.current e)

pub ask-IsFresh :
    (poison : PoisonSet) (plain : Bool) (key : Text) (now id : ℕ) (c : Queries)
    → IsFresh poison c
    → IsFresh poison (ask plain key now id c).0
unfolding ask
ask-IsFresh poison true key now id c h = wait_for-IsFresh poison key c h
ask-IsFresh poison false key now id c h = looked (lookup key c.cache)
  where
    looked : (o : Option Entry) → IsFresh poison (ask_cached key now id o c).0
    looked none = wait_for-IsFresh poison key c h
    looked (some e) = elim (Bool-cases (ltb now e.expires)) [
      | inl t ↦ simp t h
      | inr t ↦ simp t (
          wait_for-IsFresh poison key (record c { cache = delete key c.cache })
            (record {
              few = ground (arith, length-delete-le key c.cache, h.few);
              good = Each-delete (IsGood poison) key c.cache h.good;
              current = h.current;
            }))
    ]

pub release-IsFresh :
    (poison : PoisonSet) (key : Text) (f : Flight) (c : Queries)
    → IsFresh poison c
    → IsFresh poison (release key f c)
unfolding release
release-IsFresh poison key f c h = left (lookup key c.flights) refl
  where
    left : (o : Option Flight) → lookup key c.flights ≡ o → IsFresh poison (leave_flight f o key c)
    left none e = h
    left (some g) e = elim (Bool-cases (not (g.handle == f.handle))) [
      | inl t ↦ simp t h
      | inr t ↦ elim (Bool-cases (leb g.waiters 1)) [
        | inl u ↦
            simp (t, u)
              (fly poison c (delete key c.flights) h
                (Each-delete (Current c.generation) key c.flights h.current))
        | inr u ↦
            let fewer = record g { waiters = g.waiters - 1 } in
            simp (t, u)
              (fly poison c (insert key fewer c.flights) h (
                Each-insert (Current c.generation) key fewer c.flights
                  (Each-lookup (Current c.generation) key c.flights g h.current e) h.current))
      ]
    ]
