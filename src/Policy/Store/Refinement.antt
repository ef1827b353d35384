-- ===== src/Policy/Store/Refinement.antt =====
-- The policy cache against its promise: the last decision on a domain since the network changed, for
-- as long as it is trusted.
use offveil.Prelude.{
  ℕ, ◌≤◌, ◌≡◌, refl, sym, ap, ◌∙◌, subst, Bool, true, false, not, List, [], ◌∷◌, Option, none, some,
  Text, text_eq, text_eq→eq, Unique, insert-Unique, delete-Unique, arith, if◌then◌else◌, lookup,
  insert, lookup-insert, lookup-delete, Bool-cases, inl, inr,
}
use offveil.Netinfo.{Network}
use offveil.Policy.Store.{
  Entry, Store, adopt, new_store, observe_network, invalidate, entry_of, put_locked, is_expired,
  look, look_up, sift, expired_domains,
}

-- What is decided on each domain, forgotten or not.
abbrev pub Decisions : Type 0
Decisions = Text → Option Entry

abbrev pub decide : Text → Entry → Decisions → Decisions
decide domain e v d = if text_eq domain d then some e else v d

abbrev pub forget_if : Bool → Decisions → Decisions
forget_if changed v d = if changed then none else v d

-- The cache, its promise, and the time of the last call.
pub data History : Store → Decisions → ℕ → Type 0 where
  new : History new_store (λ d. none) 0
  puts :
      {s : Store} {v : Decisions} {t : ℕ} (domain path class strategy_id : Text) (at ttl now : ℕ)
      → t ≤ now
      → History s v t
      → History
          (put_locked domain path class strategy_id at ttl now s)
          (decide domain (entry_of domain path class strategy_id at ttl now) v)
          now
  observes :
      {s : Store} {v : Decisions} {t : ℕ} (net : Network)
      → History s v t
      → History (observe_network net s).0 (forget_if (observe_network net s).1 v) t
  invalidates :
      {s : Store} {v : Decisions} {t : ℕ} → History s v t → History (invalidate s) (λ d. none) t
  looks :
      {s : Store} {v : Decisions} {t : ℕ} (domain : Text) (now : ℕ)
      → t ≤ now
      → History s v t
      → History (look_up domain now s).0 v now
  expires :
      {s : Store} {v : Decisions} {t : ℕ} (now : ℕ)
      → t ≤ now
      → History s v t
      → History (expired_domains now s).0 v now

-- A decision for as long as it is trusted.
abbrev pub trusted : ℕ → Option Entry → Option Entry
trusted now none = none
trusted now (some e) = if is_expired now e then none else some e

-- From `t` on the cache shows what is promised.
abbrev Shows : Store → Decisions → ℕ → Type 0
Shows s v t = (d : Text) (now : ℕ) → t ≤ now → trusted now (lookup d s.entries) ≡ trusted now (v d)

expired-later : (e : Entry) (t now : ℕ) → t ≤ now → is_expired t e ≡ true → is_expired now e ≡ true
expired-later e t now h x = ground (arith, h, x)

outdated : (e : Entry) (t now : ℕ) → t ≤ now → is_expired t e ≡ true → trusted now (some e) ≡ none
outdated e t now h x = rw (expired-later e t now h x) refl

put-Shows :
    (s : Store) (v : Decisions) (t now : ℕ) (domain : Text) (x : Entry)
    → t ≤ now
    → Shows s v t
    → Shows (record s { entries = insert domain x s.entries }) (decide domain x v) now
put-Shows s v t now domain x h g d later k = elim (Bool-cases (text_eq domain d)) [
  | inl e ↦ rw (lookup-insert domain d x s.entries) (simp e refl)
  | inr e ↦ rw (lookup-insert domain d x s.entries) (simp e (g d later (omega (arith, h, k))))
]

look-Shows :
    (s : Store) (v : Decisions) (t now : ℕ) (domain : Text) (found : Option Entry)
    → t ≤ now
    → lookup domain s.entries ≡ found
    → Shows s v t
    → Shows (look domain now found s).0 v now
look-Shows s v t now domain none h l g d later k = g d later (omega (arith, h, k))
look-Shows s v t now domain (some e) h l g d later k = elim (Bool-cases (is_expired now e)) [
  | inr fresh ↦ simp fresh (g d later (omega (arith, h, k)))
  | inl old ↦ simp old (elim (Bool-cases (text_eq domain d)) [
    | inl same ↦ rw (lookup-delete domain d s.entries) (
        simp same (
          sym (
            ap (trusted later)
              (subst (λ k. lookup k s.entries ≡ some e) (text_eq→eq domain d same) l)
            ∙ outdated e now later k old)
          ∙ g d later (omega (arith, h, k))))
    | inr other ↦
        rw (lookup-delete domain d s.entries) (simp other (g d later (omega (arith, h, k))))
  ])
]

sift-absent :
    (expired : Bool) (t : ℕ) (es : List (Text × Entry)) (d : Text)
    → lookup d es ≡ none
    → lookup d (sift expired t es) ≡ none
unfolding lookup
sift-absent expired t [] d h = refl
sift-absent expired t ((k, e) ∷ es) d h = ground (arith, h, sift-absent expired t es d)

sift-Unique :
    (expired : Bool) (t : ℕ) (es : List (Text × Entry)) → Unique es → Unique (sift expired t es)
sift-Unique expired t [] u = tt
sift-Unique expired t ((k, e) ∷ es) u =
    elim (Bool-cases (if expired then is_expired t e else not (is_expired t e))) [
      | inl kept ↦ simp kept (sift-absent expired t es k u.0, sift-Unique expired t es u.1)
      | inr dropped ↦ simp dropped (sift-Unique expired t es u.1)
    ]

sift-trusted :
    (es : List (Text × Entry)) (t now : ℕ) (d : Text)
    → Unique es
    → t ≤ now
    → trusted now (lookup d (sift false t es)) ≡ trusted now (lookup d es)
unfolding lookup
sift-trusted [] t now d u h = refl
sift-trusted ((k, e) ∷ es) t now d u h = elim (Bool-cases (is_expired t e)) [
  | inr fresh ↦ simp fresh (elim (Bool-cases (text_eq k d)) [
    | inl same ↦ simp same refl
    | inr other ↦ simp other (sift-trusted es t now d u.1 h)
  ])
  | inl old ↦ simp old (elim (Bool-cases (text_eq k d)) [
    | inl same ↦ simp same (
        ap (trusted now)
          (sift-absent false t es d (subst (λ i. lookup i es ≡ none) (text_eq→eq k d same) u.0))
        ∙ sym (outdated e t now h old))
    | inr other ↦ simp other (sift-trusted es t now d u.1 h)
  ])
]

-- The cache has each domain once and shows what is promised.
record Keeps (s : Store) (v : Decisions) (t : ℕ) : Type 0 where
  unique : Unique s.entries
  shows : Shows s v t

look-Unique :
    (d : Text) (now : ℕ) (found : Option Entry) (s : Store)
    → Unique s.entries
    → Unique (look d now found s).0.entries
look-Unique d now none s u = u
look-Unique d now (some e) s u = elim (Bool-cases (is_expired now e)) [
  | inl old ↦ simp old (delete-Unique d s.entries u)
  | inr fresh ↦ simp fresh u
]

adopt-Keeps :
    (changed : Bool) (net : Network) (asn fp : Text) (s : Store) (v : Decisions) (t : ℕ)
    → Keeps s v t
    → Keeps (adopt changed net asn fp s) (forget_if changed v) t
unfolding lookup
adopt-Keeps true net asn fp s v t k = record { unique = tt; shows = λ d now h. refl }
adopt-Keeps false net asn fp s v t k = record { unique = k.unique; shows = k.shows }

observe-Keeps :
    (net : Network) (s : Store) (v : Decisions) (t : ℕ)
    → Keeps s v t
    → Keeps (observe_network net s).0 (forget_if (observe_network net s).1 v) t
unfolding observe_network
observe-Keeps net s v t k = adopt-Keeps _ net _ _ s v t k

history-Keeps : {s : Store} {v : Decisions} {t : ℕ} → History s v t → Keeps s v t
unfolding put_locked look_up expired_domains lookup
history-Keeps new = record { unique = tt; shows = λ d now h. refl }
history-Keeps (puts {s = s} {v = v} {t = t} domain path class strategy_id at ttl now h past) =
    let k = history-Keeps past in
    record {
      unique = insert-Unique domain _ s.entries k.unique;
      shows = put-Shows s v t now domain _ h k.shows;
    }
history-Keeps (observes {s = s} {v = v} {t = t} net past) =
    observe-Keeps net s v t (history-Keeps past)
history-Keeps (invalidates past) = record { unique = tt; shows = λ d now h. refl }
history-Keeps (looks {s = s} {v = v} {t = t} domain now h past) =
    let k = history-Keeps past in
    record {
      unique = look-Unique domain now (lookup domain s.entries) s k.unique;
      shows = look-Shows s v t now domain _ h refl k.shows;
    }
history-Keeps (expires {s = s} {v = v} {t = t} now h past) =
    let k = history-Keeps past in
    record {
      unique = sift-Unique false now s.entries k.unique;
      shows = λ d later j.
          sift-trusted s.entries now later d k.unique j ∙ k.shows d later (omega (arith, h, j));
    }

looked-trusted :
    (d : Text) (now : ℕ) (found : Option Entry) (s : Store)
    → (look d now found s).1 ≡ trusted now found
looked-trusted d now none s = refl
looked-trusted d now (some e) s = ground (arith)

-- After every history of decisions, observations of the network, invalidations, lookups and sweeps the
-- cache answers a domain with the last decision on it since the decisions last became void, if that one
-- has not expired, and with nothing otherwise: a lookup or a sweep in between never changes an answer.
pub look_up-Refines :
    {s : Store} {v : Decisions} {t : ℕ} (d : Text) (now : ℕ)
    → History s v t
    → t ≤ now
    → (look_up d now s).1 ≡ trusted now (v d)
unfolding look_up
look_up-Refines {s = s} d now past h =
    looked-trusted d now (lookup d s.entries) s ∙ (history-Keeps past).shows d now h
