-- ===== src/Capture/Selected.antt =====
-- The prefixes that FilterAllowlist selects: which addresses they can cover, and that none is forgotten.
use offveil.Prelude.{
  ℕ, ◌≡◌, refl, Bool, true, false, not, ◌&&◌, Option, none, some, List, [], ◌∷◌, any, In, All,
  All-map, any→In, In→any, arith, Bool-cases, ◌||◌, inl, inr, ◌==◌,
}
use offveil.Netip.{Addr, v4, v6}
use offveil.Netip.Prefix.{
  Prefix, contains_addr, overlaps, prefix_eq, is_4in6, unmap, is_valid, masked, must_parse_prefix,
  agree, shr,
}
use offveil.Netip.Bits.{shared-overlaps}
use offveil.Capture.{
  canonical_prefix, no_default, as_ipv4, is_excluded, is_special, may_capture, is_seen, wanted,
  extend, select_from, excludes_or, filter_allowlist, default_exclude_prefixes, local_prefixes,
  bootstrap_exclude_prefixes,
}

no_default-bits : (o : Option Prefix) (p : Prefix) → no_default o ≡ some p → (p.bits == 0) ≡ false
no_default-bits none p h = cc
no_default-bits (some q) p h = elim (Bool-cases (q.bits == 0)) [
  | inl e ↦ ground arith
  | inr e ↦
      let k : Path (Option Prefix) (some q) (some p) = rw e at h in let s : q ≡ p = cc in rw (← s) e
]

canonical-bits : (c p : Prefix) → canonical_prefix c ≡ some p → (p.bits == 0) ≡ false
unfolding canonical_prefix
canonical-bits c p h = elim (Bool-cases (is_valid c)) [
  | inl e ↦ no_default-bits (as_ipv4 (masked c)) p (rw e at h)
  | inr e ↦ let k : Path (Option Prefix) none (some p) = rw e at h in cc
]

-- A prefix that may be selected: not a default route, and allowed by the exclusions.
abbrev IsSelectable : List Prefix → Prefix → Type 0
IsSelectable excludes p = ((p.bits == 0) ≡ false) × (may_capture excludes p ≡ true)

wanted-some :
    (excludes seen : List Prefix) (o : Option Prefix) (p : Prefix)
    → wanted excludes seen o ≡ some p
    → (o ≡ some p) × (may_capture excludes p ≡ true)
wanted-some excludes seen none p h = cc
wanted-some excludes seen (some q) p h =
    elim (Bool-cases (may_capture excludes q && not (is_seen q seen))) [
      | inl e ↦
          let k : Path (Option Prefix) (some q) (some p) = rw e at h in
          let s : q ≡ p = cc in (k, rw (← s) (ground arith))
      | inr e ↦ let k : Path (Option Prefix) none (some p) = rw e at h in cc
    ]

extend-All :
    (P : Prefix → Type 0) (o : Option Prefix) (ps : List Prefix)
    → ((p : Prefix) → o ≡ some p → P p)
    → All P ps
    → All P (extend o ps)
extend-All P none ps f all = all
extend-All P (some p) ps f all = (f p refl, all)

select_from-IsSelectable :
    (excludes seen cs : List Prefix) → All (IsSelectable excludes) (select_from excludes seen cs)
unfolding select_from
select_from-IsSelectable excludes seen [] = tt
select_from-IsSelectable excludes seen (c ∷ cs) =
    let chosen = wanted excludes seen (canonical_prefix c) in
    extend-All (IsSelectable excludes) chosen _
      (λ p e.
        let (o, m) = wanted-some excludes seen (canonical_prefix c) p e in
        (canonical-bits c p o, m))
      (select_from-IsSelectable excludes (extend chosen seen) cs)

-- What was selected before the loop, or by it.
abbrev found_in : Prefix → List Prefix → List Prefix → Bool
found_in p seen out = is_seen p seen || is_seen p out

prefix_eq_refl : (p : Prefix) → prefix_eq p p ≡ true
prefix_eq_refl p = ground arith

found_in-extend :
    (p : Prefix) (o : Option Prefix) (seen out : List Prefix)
    → found_in p (extend o seen) out ≡ true
    → found_in p seen (extend o out) ≡ true
found_in-extend p none seen out h = h
found_in-extend p (some q) seen out h = ground arith

found_in-wanted :
    (excludes seen : List Prefix) (p : Prefix) (out : List Prefix)
    → may_capture excludes p ≡ true
    → found_in p seen (extend (wanted excludes seen (some p)) out) ≡ true
found_in-wanted excludes seen p out k = elim (Bool-cases (is_seen p seen)) [
  | inl e ↦ ground arith
  | inr e ↦ rw (k, e) (ground (arith, prefix_eq_refl p))
]

select_from_complete :
    (excludes seen cs : List Prefix) (c p : Prefix)
    → In c cs
    → canonical_prefix c ≡ some p
    → may_capture excludes p ≡ true
    → found_in p seen (select_from excludes seen cs) ≡ true
unfolding select_from
select_from_complete excludes seen [] c p m h k = absurd m
select_from_complete excludes seen (d ∷ ds) c p (inl e) h k =
    rw (← e, h) (found_in-wanted excludes seen p _ k)
select_from_complete excludes seen (d ∷ ds) c p (inr m) h k =
    let chosen = wanted excludes seen (canonical_prefix d) in
    let rest = select_from_complete excludes (extend chosen seen) ds c p m h k in
    found_in-extend p chosen seen _ rest

-- No address of a prefix that may be selected lies in an exclusion.
selectable-disjoint :
    (excludes : List Prefix) (p e : Prefix) (a : Addr)
    → may_capture excludes p ≡ true
    → In e excludes
    → contains_addr p a ≡ true
    → contains_addr e a ≡ false
unfolding may_capture
selectable-disjoint excludes p e a k m h = elim (Bool-cases (contains_addr e a)) [
  | inr f ↦ f
  | inl f ↦
      let hit = In→any (λ x. overlaps x p) excludes e m (shared-overlaps e p a f h) in
      ground (arith, hit)
]

-- A selected prefix is not a default route, and no address of it lies in an exclusion; and each
-- candidate with a form that is no default route, is not excluded and overlaps no exclusion is
-- selected in that form.
pub filter_allowlist_lem :
    (candidates : List Prefix) (excludes : Option (List Prefix))
    → All
        (λ p.
          ((p.bits == 0) ≡ false)
          × ((e : Prefix) (a : Addr)
              → In e (excludes_or excludes)
              → contains_addr p a ≡ true
              → contains_addr e a ≡ false))
        (filter_allowlist candidates excludes)
      × ((c p : Prefix)
          → In c candidates
          → canonical_prefix c ≡ some p
          → may_capture (excludes_or excludes) p ≡ true
          → is_seen p (filter_allowlist candidates excludes) ≡ true)
unfolding filter_allowlist
filter_allowlist_lem candidates excludes = (
  All-map (λ p (b, k). (b, λ e a m h. selectable-disjoint _ p e a k m h)) _
      (select_from-IsSelectable (excludes_or excludes) [] candidates),
  λ c p m h k. select_from_complete (excludes_or excludes) [] candidates c p m h k,
)

-- The classes of an IPv4 address, by its first 8, 12, 16 and 4 bits, and those of an IPv6 address.
covered4 :
    (n x8 x12 x16 x4 : ℕ) (rest : Bool)
    → (n ≡ 0 → x8 ≡ 0)
    → ((x8 == 127)
        || ((x8 == 10) || (x12 == 2753) || (x16 == 49320))
        || (x16 == 43518)
        || (x4 == 14)
        || (n == 0))
      ≡ true
    → ((0 == x8)
        || ((127 == x8)
            || ((10 == x8)
                || ((2753 == x12)
                    || ((49320 == x16)
                        || ((43518 == x16)
                            || ((14 == x4) || ((15 == x4) || ((4294967295 == n) || rest)))))))))
      ≡ true
covered4 n x8 x12 x16 x4 rest z h = ground arith

covered6 :
    (n x7 x10 x8 : ℕ) (rest : Bool)
    → ((n == 1) || (x7 == 126) || (x10 == 1018) || (x8 == 255) || (n == 0)) ≡ true
    → ((0 == n) || ((1 == n) || ((126 == x7) || ((1018 == x10) || ((255 == x8) || rest))))) ≡ true
covered6 n x7 x10 x8 rest h = ground arith

special-covered :
    (a : Addr) → is_special a ≡ true → any (λ e. contains_addr e a) default_exclude_prefixes ≡ true
unfolding is_special default_exclude_prefixes local_prefixes must_parse_prefix agree
special-covered (v4 n) h =
    covered4 n (shr n 24) (shr n 20) (shr n 16) (shr n 28)
      (any (λ e. contains_addr e (v4 n)) bootstrap_exclude_prefixes) (λ e. rw e refl) h
special-covered (v6 n) h =
    covered6 n (shr n 121) (shr n 118) (shr n 120)
      (any (λ e. contains_addr e (v6 n)) bootstrap_exclude_prefixes) h

unmap-id : (a : Addr) → is_4in6 a ≡ false → unmap a ≡ a
unmap-id (v4 n) m = refl
unmap-id (v6 n) m = rw m refl

-- An address outside all exclusions of the program is in none of the classes.
outside-public :
    (a : Addr)
    → is_4in6 a ≡ false
    → any (λ e. contains_addr e a) default_exclude_prefixes ≡ false
    → is_excluded a default_exclude_prefixes ≡ false
unfolding is_excluded
outside-public a m h =
    rw (unmap-id a m, h)
      (elim (Bool-cases (is_special a)) [
        | inl e ↦ let hit = special-covered a e in cc
        | inr e ↦ ground arith
      ])

none-contains :
    (p : Prefix) (a : Addr)
    → may_capture default_exclude_prefixes p ≡ true
    → contains_addr p a ≡ true
    → any (λ e. contains_addr e a) default_exclude_prefixes ≡ false
none-contains p a k h = elim (Bool-cases (any (λ e. contains_addr e a) default_exclude_prefixes)) [
  | inr f ↦ f
  | inl f ↦
      let (e, m, c) = any→In (λ x. contains_addr x a) default_exclude_prefixes f in
      let d = selectable-disjoint default_exclude_prefixes p e a k m h in cc
]

-- With the exclusions of the program every address that a selected prefix covers is public: no
-- loopback, private, link-local, multicast or unspecified address, unless it is written as 4-in-6.
pub captured-IsPublic :
    (candidates : List Prefix)
    → All
        (λ p.
          (a : Addr)
          → is_4in6 a ≡ false
          → contains_addr p a ≡ true
          → is_excluded a default_exclude_prefixes ≡ false)
        (filter_allowlist candidates none)
unfolding filter_allowlist
captured-IsPublic candidates =
    All-map (λ p (b, k) a m h. outside-public a m (none-contains p a k h)) _
      (select_from-IsSelectable default_exclude_prefixes [] candidates)
