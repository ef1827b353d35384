-- ===== src/Dns/Cache/Fresh.antt =====
-- What the cache holds and what it serves.
use offveil.Prelude.{
  ℕ, suc, ◌+◌, ◌-◌, ◌≤◌, ◌≡◌, refl, Bool, true, false, List, [], ◌∷◌, Option, none, some, arith,
  Text, ltb, leb, length, is_empty, any, lookup, Each, Each-delete, length-delete-lt, text_eq,
  text_eq_refl, All, Bool-cases, inl, inr, ◌⊎◌,
}
use offveil.Dns.Message.{Rr}
use offveil.Dns.Poison.{PoisonSet}
use offveil.Dns.Cache.{
  doh_cache_entries, doh_cache_max_ttl, poisoned_data, Entry, Flight, Queries, live, nearer, oldest,
  drop, evict,
}
use offveil.Dns.Cache.Ttl.{Lasts, sections}

abbrev pub is_poisoned : PoisonSet → Rr → Bool
is_poisoned poison rr = poisoned_data poison rr.rdata

-- An entry lives for at most a minute and for no longer than its records; it has an answer, and no
-- address of a known fingerprint.
pub record IsGood (poison : PoisonSet) (e : Entry) : Type 0 where
  pub short : e.expires ≤ e.stored + doh_cache_max_ttl
  pub lasts : All (Lasts (e.expires - e.stored)) (sections e.response)
  pub answered : is_empty e.response.answer ≡ false
  pub clean : any (is_poisoned poison) e.response.answer ≡ false

abbrev pub Current : ℕ → Flight → Type 0
Current generation f = f.generation ≡ generation

pub record IsFresh (poison : PoisonSet) (c : Queries) : Type 0 where
  pub few : length c.cache ≤ doh_cache_entries
  pub good : Each (IsGood poison) c.cache
  pub current : Each (Current c.generation) c.flights

pub live-le : (now : ℕ) (es : List (Text × Entry)) → length (live now es) ≤ length es
unfolding live
live-le now [] = omega arith
live-le now ((k, e) ∷ es) = ground (arith, live-le now es)

pub live-IsGood :
    (poison : PoisonSet) (now : ℕ) (es : List (Text × Entry))
    → Each (IsGood poison) es
    → Each (IsGood poison) (live now es)
unfolding live
live-IsGood poison now [] h = tt
live-IsGood poison now ((k, e) ∷ es) h = elim (Bool-cases (ltb now e.expires)) [
  | inl t ↦ simp t (h.0, live-IsGood poison now es h.1)
  | inr t ↦ simp t (live-IsGood poison now es h.1)
]

-- The oldest entry is one of the entries.
nearer-either :
    (k : Text) (e : Entry) (r : Option (Text × Entry)) (j : Text) (o : Entry)
    → nearer (k, e) r ≡ some (j, o)
    → (k ≡ j) ⊎ (r ≡ some (j, o))
nearer-either k e none j o h = inl (ground (arith, h))
nearer-either k e (some (i, p)) j o h = elim (Bool-cases (ltb p.expires e.expires)) [
  | inl t ↦ inr (simp t at h)
  | inr t ↦ inl (ground (arith, t, h))
]

nearer-some :
    (k : Text) (e : Entry) (r : Option (Text × Entry))
    → (j : Text) × (o : Entry) × (nearer (k, e) r ≡ some (j, o))
nearer-some k e none = (k, e, refl)
nearer-some k e (some (i, p)) = elim (Bool-cases (ltb p.expires e.expires)) [
  | inl t ↦ (i, p, simp t)
  | inr t ↦ (k, e, simp t)
]

lookup-later :
    (k j : Text) (e v : Entry) (es : List (Text × Entry))
    → lookup j es ≡ some v
    → (w : Entry) × (lookup j ((k, e) ∷ es) ≡ some w)
unfolding lookup
lookup-later k j e v es h = elim (Bool-cases (text_eq k j)) [
  | inl t ↦ (e, simp t)
  | inr t ↦ (v, simp t h)
]

lookup-head :
    (k j : Text) (e : Entry) (es : List (Text × Entry)) → k ≡ j → lookup j ((k, e) ∷ es) ≡ some e
unfolding lookup
lookup-head k j e es h = simp (h, text_eq_refl)

oldest-there :
    (es : List (Text × Entry)) (j : Text) (o : Entry)
    → oldest es ≡ some (j, o)
    → (v : Entry) × (lookup j es ≡ some v)
unfolding oldest
oldest-there [] j o h = cc h
oldest-there ((k, e) ∷ es) j o h = elim (nearer-either k e (oldest es) j o h) [
  | inl same ↦ (e, lookup-head k j e es same)
  | inr later ↦ let (v, found) = oldest-there es j o later in lookup-later k j e v es found
]

drop-less :
    (es : List (Text × Entry)) (o : Option (Text × Entry))
    → oldest es ≡ o
    → ltb 0 (length es) ≡ true
    → suc (length (drop o es)) ≤ length es
unfolding oldest
drop-less [] o h n = cc n
drop-less ((k, e) ∷ es) none h n = let (j, p, found) = nearer-some k e (oldest es) in cc (found, h)
drop-less ((k, e) ∷ es) (some (j, p)) h n =
    let (v, found) = oldest-there ((k, e) ∷ es) j p h in length-delete-lt j v ((k, e) ∷ es) found

pub evict-less :
    (es : List (Text × Entry))
    → length es ≤ doh_cache_entries
    → suc (length (evict es)) ≤ doh_cache_entries
unfolding evict
evict-less es h = elim (Bool-cases (leb doh_cache_entries (length es))) [
  | inl t ↦
      let less = drop-less es (oldest es) refl (ground (arith, t)) in
      simp t (ground (arith, less, h))
  | inr t ↦ simp t (ground (arith, t))
]

pub evict-IsGood :
    (poison : PoisonSet) (es : List (Text × Entry))
    → Each (IsGood poison) es
    → Each (IsGood poison) (evict es)
unfolding evict
evict-IsGood poison es h = elim (Bool-cases (leb doh_cache_entries (length es))) [
  | inl t ↦ simp t (dropped (oldest es))
  | inr t ↦ simp t h
]
  where
    dropped : (o : Option (Text × Entry)) → Each (IsGood poison) (drop o es)
    dropped none = h
    dropped (some (k, e)) = Each-delete (IsGood poison) k es h
