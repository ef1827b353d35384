-- ===== src/Dns/Cache/Answers.antt =====
-- What the cache serves over its life.
use offveil.Prelude.{
  ℕ, suc, ◌-◌, ◌*◌, ◌/◌, ◌≤◌, ◌≡◌, refl, ap, subst, ◌∙◌, Bool, true, false, ◌||◌, List, [], ◌∷◌,
  ◌++◌, Option, none, some, arith, Text, map, ltb, any, lookup, Each, Each-lookup, second, All,
  Bool-cases, inl, inr,
}
use offveil.Dns.Message.{Rr, Msg}
use offveil.Dns.Poison.{PoisonSet}
use offveil.Dns.Cache.{
  age_record, age_dns_response, Entry, Flight, Queries, cached, is_opt, ask_cached, ask, Landing,
  land, release, reset_cache, wait_for, wait_on,
}
use offveil.Dns.Cache.Ttl.{Lasts, Lasts-le, Alive, aged-Alive, sections}
use offveil.Dns.Cache.Fresh.{is_poisoned, IsGood, IsFresh}
use offveil.Dns.Cache.Sections.{land-IsFresh, ask-IsFresh, release-IsFresh}

-- A history of the locked sections; landings and releases may come from any flight, old ones included.
pub data History (size : Msg → ℕ) (poison : PoisonSet) : Queries → Queries → Type 0 where
  start : {c : Queries} → History size poison c c
  asks :
      {b c : Queries} (plain : Bool) (key : Text) (now id : ℕ)
      → History size poison b c
      → History size poison b (ask plain key now id c).0
  lands :
      {b c : Queries} (plain : Bool) (key : Text) (now : ℕ) (f : Flight) (l : Landing)
      → History size poison b c
      → History size poison b (land size poison plain key now f l c)
  releases :
      {b c : Queries} (key : Text) (f : Flight)
      → History size poison b c
      → History size poison b (release key f c)
  resets : {b c : Queries} → History size poison b c → History size poison b (reset_cache c)

reset-IsFresh : (poison : PoisonSet) (c : Queries) → IsFresh poison (reset_cache c)
unfolding reset_cache
reset-IsFresh poison c = record { few = omega arith; good = tt; current = tt }

-- In every history the cache has at most 256 entries; each of them expires within a minute and before
-- any of its records does, is not empty and has no address of a known fingerprint; and every flight that
-- a question can join was started after the last reset.
pub history-IsFresh :
    (size : Msg → ℕ) (poison : PoisonSet) (b c : Queries)
    → History size poison b c
    → IsFresh poison b
    → IsFresh poison c
history-IsFresh size poison b c start h = h
history-IsFresh size poison b c (asks {c = d} plain key now id past) h =
    ask-IsFresh poison plain key now id d (history-IsFresh size poison b d past h)
history-IsFresh size poison b c (lands {c = d} plain key now f l past) h =
    land-IsFresh size poison plain key now f l d (history-IsFresh size poison b d past h)
history-IsFresh size poison b c (releases {c = d} key f past) h =
    release-IsFresh poison key f d (history-IsFresh size poison b d past h)
history-IsFresh size poison b c (resets {c = d} past) h = reset-IsFresh poison d

All-split : (P : Rr → Type 0) (xs ys : List Rr) → All P (xs ++ ys) → All P xs × All P ys
All-split P [] ys h = (tt, h)
All-split P (x ∷ xs) ys h = let (a, b) = All-split P xs ys h.1 in ((h.0, a), b)

All-join : (P : Rr → Type 0) (xs ys : List Rr) → All P xs → All P ys → All P (xs ++ ys)
All-join P [] ys a b = b
All-join P (x ∷ xs) ys a b = (a.0, All-join P xs ys a.1 b)

aged-list :
    (age : ℕ) (rrs : List Rr)
    → All (Lasts (suc (age * second))) rrs
    → All Alive (map (age_record age) rrs)
aged-list age [] h = tt
aged-list age (rr ∷ rrs) h = (aged-Alive age rr h.0, aged-list age rrs h.1)

aged-sections :
    (age : ℕ) (m : Msg)
    → All (Lasts (suc (age * second))) (sections m)
    → All Alive (sections (age_dns_response age m))
unfolding age_dns_response
aged-sections age m h =
    let (early, x) = All-split (Lasts (suc (age * second))) (m.answer ++ m.ns) m.extra h in
    let (a, n) = All-split (Lasts (suc (age * second))) m.answer m.ns early in
    All-join Alive _ (map (age_record age) m.extra)
      (All-join Alive (map (age_record age) m.answer) _ (aged-list age m.answer a)
        (aged-list age m.ns n))
      (aged-list age m.extra x)

same-data : (age : ℕ) (rr : Rr) → (age_record age rr).rdata ≡ rr.rdata
same-data age rr = elim (Bool-cases (is_opt rr.rdata)) [ inl e ↦ simp e refl | inr e ↦ simp e refl ]

aged-clean :
    (poison : PoisonSet) (age : ℕ) (rrs : List Rr)
    → any (is_poisoned poison) (map (age_record age) rrs) ≡ any (is_poisoned poison) rrs
aged-clean poison age [] = refl
aged-clean poison age (rr ∷ rrs) =
    rw (same-data age rr) (ap (λ rest. is_poisoned poison rr || rest) (aged-clean poison age rrs))

-- What a question gets from the cache.
pub record Served (poison : PoisonSet) (id : ℕ) (m : Msg) : Type 0 where
  pub own_id : m.id ≡ id
  pub alive : All Alive (sections m)
  pub clean : any (is_poisoned poison) m.answer ≡ false

aged_lasts :
    (now : ℕ) (e : Entry)
    → ltb now e.expires ≡ true
    → e.stored ≤ now
    → suc ((now - e.stored) / second * second) ≤ e.expires - e.stored
aged_lasts now e t past = ground (arith, t, past)

good-Served :
    (poison : PoisonSet) (now id : ℕ) (e : Entry)
    → IsGood poison e
    → e.stored ≤ now
    → ltb now e.expires ≡ true
    → let age = (now - e.stored) / second in
      Served poison id (record (age_dns_response age e.response) { id = id })
unfolding age_dns_response
good-Served poison now id e g past t = record {
  own_id = refl;
  alive =
      aged-sections ((now - e.stored) / second) e.response
        (Lasts-le _ (e.expires - e.stored) (sections e.response) (aged_lasts now e t past) g.lasts);
  clean = aged-clean poison ((now - e.stored) / second) e.response.answer ∙ g.clean;
}

waits-cached :
    (key : Text) (c : Queries) (m : Msg) (ep : Text) → ¬ ((wait_for key c).1 ≡ cached m ep)
unfolding wait_for
waits-cached key c m ep q = waited (lookup key c.flights) q
  where
    waited : (found : Option Flight) → ¬ ((wait_on key found c).1 ≡ cached m ep)
    waited none q = cc q
    waited (some f) q = cc q

response_of : {m n : Msg} {a b : Text} → cached m a ≡ cached n b → m ≡ n
response_of e = cc e

asked-Served :
    (poison : PoisonSet) (key : Text) (now id : ℕ) (found : Option Entry) (c : Queries) (m : Msg)
    (ep : Text)
    → (ask_cached key now id found c).1 ≡ cached m ep
    → ((e : Entry) → found ≡ some e → IsGood poison e × (e.stored ≤ now))
    → Served poison id m
asked-Served poison key now id none c m ep q h = absurd (waits-cached key c m ep q)
asked-Served poison key now id (some e) c m ep q h = elim (Bool-cases (ltb now e.expires)) [
  | inl t ↦
      subst (Served poison id) (response_of (simp t at q))
        (good-Served poison now id e (h e refl).0 (h e refl).1 t)
  | inr t ↦ absurd (waits-cached key _ m ep (simp t at q))
]

abbrev pub Past : ℕ → Entry → Type 0
Past now e = e.stored ≤ now

-- An answer out of the cache carries the id of its question, has no address of a known fingerprint, and
-- every record of it but the pseudo record OPT can still be used, at every time at which no entry is
-- from the future.
pub ask-Served :
    (poison : PoisonSet) (plain : Bool) (key : Text) (now id : ℕ) (c : Queries) (m : Msg)
    (ep : Text)
    → IsFresh poison c
    → Each (Past now) c.cache
    → (ask plain key now id c).1 ≡ cached m ep
    → Served poison id m
unfolding ask
ask-Served poison true key now id c m ep f p q = absurd (waits-cached key c m ep q)
ask-Served poison false key now id c m ep f p q =
    asked-Served poison key now id (lookup key c.cache) c m ep q (λ e l. (
      Each-lookup (IsGood poison) key c.cache e f.good l,
      Each-lookup (Past now) key c.cache e p l,
    ))
