-- ===== src/Ruleset/Sets.antt =====
-- uniqueHosts and MatchSuffix against what they compute.
use offveil.Prelude.{
  ◌≡◌, refl, sym, ap, true, false, List, [], ◌∷◌, ◌++◌, ◌⊎◌, inl, inr, ◌↔◌, In, any→In, In→any,
  arith, Text, is_empty, has_suffix-append, has_suffix→append, text_eq, text_eq→eq, text_eq_refl,
  Bool-cases,
}
use offveil.Ruleset.Hosts.{normalize_host, member, unique_from, unique_hosts, covers, match_suffix}

pub member→In : (h : Text) (seen : List Text) → member h seen ≡ true → In h seen
member→In h [] m = cc
member→In h (s ∷ seen) m = elim (Bool-cases (text_eq s h)) [
  | inl e ↦ inl (sym (text_eq→eq s h e))
  | inr e ↦ inr (member→In h seen (ground (arith, e)))
]

pub In→member : (h : Text) (seen : List Text) → In h seen → member h seen ≡ true
In→member h [] m = absurd m
In→member h (s ∷ seen) (inl e) = rw e (rw (text_eq_refl s))
In→member h (s ∷ seen) (inr m) = ground (arith, In→member h seen m)

-- `h` is the normal form of a member.
abbrev pub Names : List Text → Text → Type 0
Names hosts h = (raw : Text) × In raw hosts × (normalize_host raw ≡ h)

-- No member stands twice.
abbrev pub Distinct : List Text → Type 0
Distinct [] = Unit {0}
Distinct (x ∷ xs) = ¬ (In x xs) × Distinct xs

abbrev Step : Text → List Text → List Text → Type 0
Step raw hosts seen =
    ((unique_from seen (raw ∷ hosts)
        ≡ normalize_host raw ∷ unique_from (normalize_host raw ∷ seen) hosts)
      × (is_empty (normalize_host raw) ≡ false)
      × (member (normalize_host raw) seen ≡ false))
    ⊎ ((unique_from seen (raw ∷ hosts) ≡ unique_from seen hosts)
        × ((is_empty (normalize_host raw) ≡ true) ⊎ (member (normalize_host raw) seen ≡ true)))

unique-Step : (raw : Text) (hosts seen : List Text) → Step raw hosts seen
unfolding unique_from
unique-Step raw hosts seen = elim (Bool-cases (is_empty (normalize_host raw))) [
  | inl e ↦ inr (ground (arith, e), inl e)
  | inr e ↦ elim (Bool-cases (member (normalize_host raw) seen)) [
    | inl m ↦ inr (ground (arith, e, m), inr m)
    | inr m ↦ inl (ground (arith, e, m), e, m)
  ]
]

abbrev Fresh : List Text → List Text → Text → Type 0
Fresh seen hosts h = Names hosts h × (is_empty h ≡ false) × (member h seen ≡ false)

there :
    (raw : Text) (hosts seen : List Text) (h : Text)
    → Fresh seen hosts h
    → Fresh seen (raw ∷ hosts) h
there raw hosts seen h ((r, m, e), filled, new) = ((r, inr m, e), filled, new)

-- Every member of the result is the normal form of a host, not empty and not seen before.
unique_from-Fresh :
    (seen hosts : List Text) (h : Text) → In h (unique_from seen hosts) → Fresh seen hosts h
unique_from-Fresh seen [] h m = absurd (unfold unique_from in m)
unique_from-Fresh seen (raw ∷ hosts) h m = elim (unique-Step raw hosts seen) [
  | inl (e, filled, new) ↦ elim (rw e at m) [
    | inl q ↦ rw q ((raw, inl refl, refl), filled, new)
    | inr q ↦
        let (names, f, n) = unique_from-Fresh (normalize_host raw ∷ seen) hosts h q in
        there raw hosts seen h (names, f, ground (arith, n))
  ]
  | inr (e, why) ↦ there raw hosts seen h (unique_from-Fresh seen hosts h (rw e at m))
]

unique_from_complete :
    (seen hosts : List Text) (h : Text) → Fresh seen hosts h → In h (unique_from seen hosts)
unique_from_complete seen [] h ((r, m, e), filled, new) = absurd m
unique_from_complete seen (raw ∷ hosts) h ((r, m, e), filled, new) =
    elim (Bool-cases (text_eq (normalize_host raw) h)) [
      | inl same ↦
          let q = text_eq→eq (normalize_host raw) h same in
          elim (unique-Step raw hosts seen) [
            | inl (u, f, n) ↦ rw u (inl (sym q))
            | inr (u, why) ↦ absurd (clash q why)
          ]
      | inr other ↦
          let k = later m other in
          elim (unique-Step raw hosts seen) [
            | inl (u, f, n) ↦ rw u (
                inr (
                  unique_from_complete (normalize_host raw ∷ seen) hosts h
                    ((r, k, e), filled, ground (arith, new, other))))
            | inr (u, why) ↦ rw u (unique_from_complete seen hosts h ((r, k, e), filled, new))
          ]
    ]
  where
    clash :
        normalize_host raw ≡ h
        → (is_empty (normalize_host raw) ≡ true) ⊎ (member (normalize_host raw) seen ≡ true)
        → ⊥
    clash q (inl a) = cc (ap is_empty q)
    clash q (inr b) = cc (ap (λ x. member x seen) q)

    later : In r (raw ∷ hosts) → text_eq (normalize_host raw) h ≡ false → In r hosts
    later (inl q) o = absurd (ground (arith, text_eq_refl h, ap normalize_host q))
    later (inr q) o = q

unique_from-Distinct : (seen hosts : List Text) → Distinct (unique_from seen hosts)
unique_from-Distinct seen [] = unfold unique_from in tt
unique_from-Distinct seen (raw ∷ hosts) = elim (unique-Step raw hosts seen) [
  | inl (e, filled, new) ↦ rw e (
    (λ m.
        let (n, f, q) =
          unique_from-Fresh (normalize_host raw ∷ seen) hosts (normalize_host raw) m in
        ground (arith, q, text_eq_refl (normalize_host raw))),
    unique_from-Distinct (normalize_host raw ∷ seen) hosts,
  )
  | inr (e, why) ↦ rw e (unique_from-Distinct seen hosts)
]

-- uniqueHosts keeps exactly the nonempty normal forms of its arguments, each of them once.
pub unique_hosts_lem :
    (hosts : List Text)
    → Distinct (unique_hosts hosts)
      × ((h : Text) → In h (unique_hosts hosts) ↔ (Names hosts h × (is_empty h ≡ false)))
unfolding unique_hosts
unique_hosts_lem hosts = (
  unique_from-Distinct [] hosts,
  λ h. (
    λ m. let (n, f, q) = unique_from-Fresh [] hosts h m in (n, f),
    λ p. unique_from_complete [] hosts h (p.0, p.1, refl),
  ),
)

-- `host` is a suffix or lies below it, after a dot.
abbrev pub Below : Text → Text → Type 0
Below host suffix = (host ≡ suffix) ⊎ ((p : Text) × (host ≡ p ++ b'.' ∷ suffix))

covers→Below : (host suffix : Text) → covers host suffix ≡ true → Below host suffix
covers→Below host suffix c = elim (Bool-cases (text_eq host suffix)) [
  | inl e ↦ inl (text_eq→eq host suffix e)
  | inr e ↦ inr (has_suffix→append host (b'.' ∷ suffix) (unfold covers in ground (arith, e, c)))
]

Below→covers :
    (host suffix : Text) → is_empty suffix ≡ false → Below host suffix → covers host suffix ≡ true
unfolding covers
Below→covers host suffix f (inl e) = ground (arith, e, text_eq_refl host)
Below→covers host suffix f (inr (p, e)) = ground (arith, e, has_suffix-append p (b'.' ∷ suffix))

covers-filled : (host suffix : Text) → covers host suffix ≡ true → is_empty suffix ≡ false
unfolding covers
covers-filled host suffix c = ground arith

-- MatchSuffix holds exactly when the normal form of the host equals, or lies label by label below,
-- the nonempty normal form of one of the suffixes.
pub match_suffix_iff :
    (host : Text) (suffixes : List Text)
    → (match_suffix host suffixes ≡ true) ↔ (
        (s : Text) × In s suffixes
        × (is_empty (normalize_host s) ≡ false)
        × Below (normalize_host host) (normalize_host s))
unfolding match_suffix
match_suffix_iff host suffixes = (
  λ h.
      let (s, m, c) = any→In (λ s. covers (normalize_host host) (normalize_host s)) suffixes h in
      (s, m, covers-filled _ _ c, covers→Below _ _ c),
  λ p. In→any _ suffixes p.0 p.1 (Below→covers _ _ p.2 p.3),
)
