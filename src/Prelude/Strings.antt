-- ===== src/Prelude/Strings.antt =====
-- The operations of Go's package strings that the core uses, on ASCII texts.
use Prim.Native.Nat.{ℕ, zero, suc, ◌+◌, ◌-◌}
use mathlib.Core.Path.{◌≡◌, refl, ap, ◌∙◌}
use mathlib.Core.Logic.{inl, inr}
use mathlib.Core.Bool.{Bool, true, false, not, ◌&&◌, ◌||◌}
use mathlib.Core.List.{List, [], ◌∷◌, ◌++◌}
use native.Mathlib.Omega.{arith}
use offveil.Prelude.Tests.{if◌then◌else◌, ◌==◌, leb, Bool-cases}
use offveil.Prelude.Lists.{length, drop, take, all, any, is_empty, length-append, drop-append}
use offveil.Prelude.Texts.{Text, text_eq, text_eq→eq, text_eq_refl}

-- ToLower on one ASCII byte.
unfoldable pub lower : ℕ → ℕ
lower c = if leb b'A' c && leb c b'Z' then c + 32 else c

unfoldable pub to_lower : Text → Text
unfolding lower
to_lower [] = []
to_lower (c ∷ s) = lower c ∷ to_lower s

-- ToUpper on ASCII bytes.
unfoldable pub upper : ℕ → ℕ
upper c = if leb b'a' c && leb c b'z' then c - 32 else c

unfoldable pub to_upper : Text → Text
unfolding upper
to_upper [] = []
to_upper (c ∷ s) = upper c ∷ to_upper s

-- The ASCII white space that TrimSpace removes: tab, line feed, vertical tab, form feed, carriage
-- return and space.
unfoldable pub is_space : ℕ → Bool
is_space c = (leb 9 c && leb c 13) || c == 32

-- TrimLeftFunc and TrimRightFunc.
unfoldable pub trim_left : (ℕ → Bool) → Text → Text
trim_left p [] = []
trim_left p (c ∷ s) = if p c then trim_left p s else c ∷ s

unfoldable pub trim_right : (ℕ → Bool) → Text → Text
trim_right p [] = []
trim_right p (c ∷ s) = let rest = trim_right p s in if is_empty rest && p c then [] else c ∷ rest

unfoldable pub trim_space : Text → Text
unfolding trim_left trim_right is_space
trim_space s = trim_right is_space (trim_left is_space s)

unfoldable pub has_prefix : Text → Text → Bool
has_prefix s [] = true
has_prefix [] (d ∷ t) = false
has_prefix (c ∷ s) (d ∷ t) = c == d && has_prefix s t

unfoldable pub trim_prefix : Text → Text → Text
unfolding has_prefix
trim_prefix s t = if has_prefix s t then drop (length t) s else s

-- `len(s) >= len(suffix) && s[len(s)-len(suffix):] == suffix`.
unfoldable pub has_suffix : Text → Text → Bool
unfolding text_eq
has_suffix s t = leb (length t) (length s) && text_eq (drop (length s - length t) s) t

unfoldable pub trim_suffix : Text → Text → Text
unfolding has_suffix
trim_suffix s t = if has_suffix s t then take (length s - length t) s else s

-- Contains and ContainsRune for one byte.
unfoldable pub contains : ℕ → Text → Bool
contains c s = any (λ d. d == c) s

push_first : ℕ → List Text → List Text
push_first c [] = (c ∷ []) ∷ []
push_first c (l ∷ ls) = (c ∷ l) ∷ ls

-- Split at one byte.
unfoldable pub split : ℕ → Text → List Text
unfolding push_first
split sep [] = [] ∷ []
split sep (c ∷ s) = let rest = split sep s in if c == sep then [] ∷ rest else push_first c rest

-- Cut at one byte: the text before it, the text after it, and whether it is there.
unfoldable pub cut : ℕ → Text → Text × Text × Bool
cut sep [] = ([], [], false)
cut sep (c ∷ s) =
    let (before, after, found) = cut sep s in
    if c == sep then ([], s, true) else (c ∷ before, after, found)

-- The last byte, or `d`.
abbrev pub last_or : ℕ → Text → ℕ
last_or d [] = d
last_or d (c ∷ s) = last_or c s

pub has_suffix-append : (s t : Text) → has_suffix (s ++ t) t ≡ true
unfolding has_suffix
has_suffix-append s t =
    let e : length (s ++ t) - length t ≡ length s = omega (arith, length-append {0} s t) in
    rw e (rw (drop-append {0} s t) (ground (arith, text_eq_refl t, length-append {0} s t)))

split_at : (n : ℕ) (s : Text) → s ≡ take n s ++ drop n s
split_at zero s = refl
split_at (suc n) [] = refl
split_at (suc n) (c ∷ s) = ap (◌∷◌ c) (split_at n s)

pub has_suffix→append : (s t : Text) → has_suffix s t ≡ true → (p : Text) × (s ≡ p ++ t)
unfolding has_suffix
has_suffix→append s t h =
    let e : drop (length s - length t) s ≡ t = text_eq→eq _ _ (ground arith) in
    (
      take (length s - length t) s,
      split_at (length s - length t) s ∙ ap (◌++◌ (take (length s - length t) s)) e,
    )

pub trim_right-id : (p : ℕ → Bool) (s : Text) → all (λ c. not (p c)) s ≡ true → trim_right p s ≡ s
unfolding trim_right
trim_right-id p [] h = refl
trim_right-id p (c ∷ s) h = ground (arith, trim_right-id p s)

pub trim_left-id : (p : ℕ → Bool) (s : Text) → all (λ c. not (p c)) s ≡ true → trim_left p s ≡ s
unfolding trim_left
trim_left-id p [] h = refl
trim_left-id p (c ∷ s) h = ground arith

abbrev is_filled : Text → Bool
is_filled l = not (is_empty l)

all-push_first :
    (q : ℕ → Bool) (c : ℕ) (r : List Text)
    → all (all q) (push_first c r) ≡ true
    → (q c ≡ true) × (all (all q) r ≡ true)
unfolding push_first
all-push_first q c [] h = ground arith
all-push_first q c (l ∷ ls) h = ground arith

-- Where every field passes a test bytewise, every byte passes it or is the separator.
pub all-split :
    (sep : ℕ) (q : ℕ → Bool) (s : Text)
    → all (all q) (split sep s) ≡ true
    → all (λ c. c == sep || q c) s ≡ true
unfolding split
all-split sep q [] h = refl
all-split sep q (c ∷ s) h = elim (Bool-cases (c == sep)) [
  | inl e ↦ ground (arith, all-split sep q s (ground arith))
  | inr e ↦
      let parts = all-push_first q c (split sep s) (ground arith) in
      ground (arith, all-split sep q s parts.1)
]

abbrev tail : List Text → List Text
tail [] = []
tail (l ∷ ls) = ls

-- Where no field is empty, the text is not empty and does not begin with the separator.
pub split-head :
    (sep : ℕ) (s : Text)
    → all is_filled (split sep s) ≡ true
    → (c : ℕ) × (t : Text) × (s ≡ c ∷ t) × ((c == sep) ≡ false)
unfolding split
split-head sep [] h = cc
split-head sep (c ∷ s) h = (c, s, refl, ground arith)

tail-push_first : (c : ℕ) (r : List Text) → tail (push_first c r) ≡ tail r
unfolding push_first
tail-push_first c [] = refl
tail-push_first c (l ∷ ls) = refl

all-tail : (c : ℕ) (r : List Text) → all is_filled r ≡ true → all is_filled (tail r) ≡ true
all-tail c [] h = h
all-tail c (l ∷ ls) h = ground arith

split-last_from :
    (sep : ℕ) (s : Text) (d : ℕ)
    → all is_filled (tail (split sep s)) ≡ true
    → (d == sep) ≡ false
    → (last_or d s == sep) ≡ false
unfolding split
split-last_from sep [] d h n = n
split-last_from sep (c ∷ s) d h n = elim (Bool-cases (c == sep)) [
  | inl e ↦
      let filled : all is_filled (split sep s) ≡ true = rw e at h in
      let (b, t, eq, ne) = split-head sep s filled in
      let ih = split-last_from sep s (suc sep) (all-tail c (split sep s) filled) (ground arith) in
      rw eq (rw eq at ih)
  | inr e ↦ split-last_from sep s c (rw (← tail-push_first c (split sep s)) (rw e at h)) e
]

-- Nor does it end with it.
pub split-last :
    (sep d : ℕ) (s : Text)
    → all is_filled (split sep s) ≡ true
    → (d == sep) ≡ false
    → (last_or d s == sep) ≡ false
split-last sep d s h n = split-last_from sep s d (all-tail d (split sep s) h) n

last_or-append : (d c : ℕ) (s : Text) → last_or d (s ++ c ∷ []) ≡ c
last_or-append d c [] = refl
last_or-append d c (b ∷ s) = last_or-append b c s

pub has_suffix-last : (d c : ℕ) (s : Text) → has_suffix s (c ∷ []) ≡ true → last_or d s ≡ c
has_suffix-last d c s h = let (p, e) = has_suffix→append s (c ∷ []) h in rw e (last_or-append d c p)

-- Contains for a text.
unfoldable pub contains_text : Text → Text → Bool
unfolding has_prefix
contains_text s [] = true
contains_text [] (d ∷ t) = false
contains_text (c ∷ s) (d ∷ t) = has_prefix (c ∷ s) (d ∷ t) || contains_text s (d ∷ t)

-- Whether one of several texts is contained.
unfoldable pub contains_any : Text → List Text → Bool
unfolding contains_text
contains_any s [] = false
contains_any s (t ∷ ts) = contains_text s t || contains_any s ts
