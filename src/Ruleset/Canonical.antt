-- ===== src/Ruleset/Canonical.antt =====
-- What the checks of a host name guarantee to the code that compares names later.
use offveil.Prelude.{
  ℕ, ◌≡◌, refl, Bool, true, false, not, ◌||◌, List, [], ◌∷◌, inl, inr, arith, Text, codes, is_empty,
  ◌==◌, split, all, to_lower, is_space, trim_space, trim_prefix, trim_left, trim_suffix, has_suffix,
  last_or, Bool-cases, all-split, split-head, split-last, has_suffix-last, trim_left-id,
  trim_right-id,
}
use offveil.Ruleset.Hosts.{label_char, valid_label, valid_hostname, normalize_host}

abbrev pub plain : ℕ → Bool
plain c = c == b'.' || label_char c

valid_labels : (h : Text) → valid_hostname h ≡ true → all valid_label (split b'.' h) ≡ true
unfolding valid_hostname
valid_labels h v = ground arith

pub labels-plain : (ls : List Text) → all valid_label ls ≡ true → all (all label_char) ls ≡ true
unfolding valid_label
labels-plain [] h = refl
labels-plain (l ∷ ls) h = ground (arith, labels-plain ls)

pub labels-filled :
    (ls : List Text) → all valid_label ls ≡ true → all (λ l. not (is_empty l)) ls ≡ true
unfolding valid_label
labels-filled [] h = refl
labels-filled (l ∷ ls) h = ground (arith, labels-filled ls)

pub plain-lower : (s : Text) → all plain s ≡ true → to_lower s ≡ s
unfolding to_lower label_char
plain-lower [] h = refl
plain-lower (c ∷ s) h = ground (arith, plain-lower s)

plain-no_space : (s : Text) → all plain s ≡ true → all (λ c. not (is_space c)) s ≡ true
unfolding is_space label_char
plain-no_space [] h = refl
plain-no_space (c ∷ s) h = ground (arith, plain-no_space s)

pub plain-trim_space : (s : Text) → all plain s ≡ true → trim_space s ≡ s
unfolding trim_space
plain-trim_space s h =
    let clean = plain-no_space s h in
    rw (trim_left-id is_space s clean) (trim_right-id is_space s clean)

plain-trim_prefix : (s : Text) → all plain s ≡ true → trim_prefix s (codes "*.") ≡ s
unfolding trim_prefix label_char
plain-trim_prefix [] h = refl
plain-trim_prefix (c ∷ s) h = ground arith

trim_dots :
    (s : Text) (c : ℕ) (t : Text)
    → s ≡ c ∷ t
    → (c == b'.') ≡ false
    → trim_left (λ d. d == b'.') s ≡ s
unfolding trim_left
trim_dots s c t e n = rw e (ground arith)

pub trim_end : (s : Text) → (last_or 0 s == b'.') ≡ false → trim_suffix s (codes ".") ≡ s
unfolding trim_suffix
trim_end s n = elim (Bool-cases (has_suffix s (codes "."))) [
  | inl e ↦ absurd (ground (arith, has_suffix-last 0 b'.' s e))
  | inr e ↦ ground (arith, e)
]

-- A validated host name is in the form that every later comparison normalizes to: normalizeHost
-- leaves it as it is.
pub normalize_host-valid : (h : Text) → valid_hostname h ≡ true → normalize_host h ≡ h
unfolding normalize_host
normalize_host-valid h v =
    let labels = valid_labels h v in
    let bytes : all plain h ≡ true = all-split b'.' label_char h (labels-plain _ labels) in
    let filled = labels-filled _ labels in
    let (c, t, e, n) = split-head b'.' h filled in
    rw
      (
        plain-trim_space h bytes,
        plain-lower h bytes,
        plain-trim_prefix h bytes,
        trim_dots h c t e n,
      )
      (trim_end h (split-last b'.' 0 h filled refl))
