-- ===== src/Desync/Args/Grammar.antt =====
-- The argument lists that are accepted, by a grammar.
use offveil.Prelude.{
  length, ◌<◌, ◌≤◌, ℕ, ◌≡◌, refl, sym, ap, subst, Bool, true, false, not, ◌&&◌, List, [], ◌∷◌, ◌++◌,
  Option, none, some, Text, text_eq, text_eq→eq, is_empty, ◌==◌, cut, contains, all, lookup, ok,
  ◌>>◌, require, require-eq-ok, >>=-eq-ok, arith, Bool-cases, inl, inr, ◌↔◌,
}
use offveil.Desync.Args.{
  value_char, strategy_flags, flag_of, valid_value, ArgError, Shape, alien, bare, overfull,
  open_flag, joined, shape_of, shape, check_last, check_step, check_args, invalid_value,
  empty_strategy, unsupported, contains_darwin_unsupported, validate_strategy_args,
}

-- From one to 64 plain characters.
abbrev pub IsValue : Text → Type 0
IsValue v = (0 < length v) × (length v ≤ 64) × (all value_char v ≡ true)

-- Flags without a value, flags with the value in the next argument, and flags with the value behind an
-- equals sign.
pub data IsOptions : List Text → Type 0 where
  done : IsOptions []
  switch :
      {args : List Text} (name : Text)
      → flag_of name ≡ some false
      → IsOptions args
      → IsOptions (name ∷ args)
  spaced :
      {args : List Text} (name value : Text)
      → flag_of name ≡ some true
      → IsValue value
      → IsOptions args
      → IsOptions (name ∷ value ∷ args)
  assigned :
      {args : List Text} (name value : Text)
      → flag_of name ≡ some true
      → IsValue value
      → IsOptions args
      → IsOptions ((name ++ b'=' ∷ value) ∷ args)

-- How an argument has its shape.
abbrev Reads : Text → Shape → Type 0
Reads arg alien = Unit {0}
Reads arg overfull = Unit {0}
Reads arg bare = flag_of arg ≡ some false
Reads arg open_flag = flag_of arg ≡ some true
Reads arg (joined v) = (name : Text) × (flag_of name ≡ some true) × (arg ≡ name ++ b'=' ∷ v)

cut-whole : (sep : ℕ) (s : Text) → (cut sep s).2 ≡ false → (cut sep s).0 ≡ s
unfolding cut
cut-whole sep [] h = refl
cut-whole sep (c ∷ s) h = ground (arith, cut-whole sep s)

cut-joined : (sep : ℕ) (s : Text) → (cut sep s).2 ≡ true → s ≡ (cut sep s).0 ++ sep ∷ (cut sep s).1
unfolding cut
cut-joined sep [] h = cc h
cut-joined sep (c ∷ s) h = elim (Bool-cases (c == sep)) [
  | inl e ↦ simp e (ap (λ d. d ∷ s) (ground (arith, e)))
  | inr e ↦ simp e (ap (◌∷◌ c) (cut-joined sep s (simp e at h)))
]

cut-none : (sep : ℕ) (s : Text) → contains sep s ≡ false → cut sep s ≡ (s, [], false)
unfolding cut contains
cut-none sep [] h = refl
cut-none sep (c ∷ s) h = ground (arith, cut-none sep s)

cut-append : (sep : ℕ) (s t : Text) → contains sep s ≡ false → cut sep (s ++ sep ∷ t) ≡ (s, t, true)
unfolding cut contains
cut-append sep [] t h = ground arith
cut-append sep (c ∷ s) t h = ground (arith, cut-append sep s t)

-- No flag of the list has an equals sign in its name.
lookup-plain :
    (flags : List (Text × Bool)) (name : Text) (b : Bool)
    → all (λ f. not (contains b'=' f.0)) flags ≡ true
    → lookup name flags ≡ some b
    → contains b'=' name ≡ false
unfolding lookup
lookup-plain [] name b a h = cc h
lookup-plain ((n, v) ∷ flags) name b a h = elim (Bool-cases (text_eq n name)) [
  | inl e ↦ subst (λ t. contains b'=' t ≡ false) (text_eq→eq n name e) (ground (arith, a))
  | inr e ↦ lookup-plain flags name b (ground (arith, a)) (simp e at h)
]

flag-plain : (name : Text) (b : Bool) → flag_of name ≡ some b → contains b'=' name ≡ false
flag-plain name b h =
    lookup-plain strategy_flags name b (unfold contains in refl) (unfold flag_of in h)

pub shape-of_flag :
    (name value : Text) (b : Bool) → flag_of name ≡ some b → shape name ≡ shape_of (some b) [] false
unfolding shape
shape-of_flag name value b h = rw (cut-none b'=' name (flag-plain name b h)) (rw h refl)

shape-assigned :
    (name value : Text) → flag_of name ≡ some true → shape (name ++ b'=' ∷ value) ≡ joined value
unfolding shape
shape-assigned name value h = rw (cut-append b'=' name value (flag-plain name true h)) (rw h refl)

shape-Reads : (arg : Text) → Reads arg (shape arg)
unfolding shape
shape-Reads arg = reads (cut b'=' arg).2 refl (flag_of (cut b'=' arg).0) refl
  where
    reads :
        (inline : Bool) (e : (cut b'=' arg).2 ≡ inline) (f : Option Bool)
        (h : flag_of (cut b'=' arg).0 ≡ f)
        → Reads arg (shape_of f (cut b'=' arg).1 inline)
    reads inline e none h = tt
    reads false e (some false) h = subst (λ a. flag_of a ≡ some false) (cut-whole b'=' arg e) h
    reads true e (some false) h = tt
    reads false e (some true) h = subst (λ a. flag_of a ≡ some true) (cut-whole b'=' arg e) h
    reads true e (some true) h = ((cut b'=' arg).0, h, cut-joined b'=' arg e)

pub valid_value_iff : (v : Text) → (valid_value v ≡ true) ↔ IsValue v
unfolding valid_value
valid_value_iff [] = (λ h. cc h, λ p. absurd (omega (arith, p.0)))
valid_value_iff (c ∷ v) =
    (λ h. (omega arith, ground (arith, h), ground (arith, h)), λ p. ground (arith, p.1, p.2))

valid-IsValue :
    (v : Text) (failure : ArgError) → require (valid_value v) failure ≡ ok tt → IsValue v
valid-IsValue v failure h = (valid_value_iff v).0 (require-eq-ok _ _ h)

last-IsOptions :
    (arg : Text) (s : Shape) → Reads arg s → check_last arg s ≡ ok tt → IsOptions (arg ∷ [])
last-IsOptions arg alien r h = cc h
last-IsOptions arg bare r h = switch arg r done
last-IsOptions arg overfull r h = cc h
last-IsOptions arg open_flag r h = cc h
last-IsOptions arg (joined v) (name, f, e) h =
    subst (λ a. IsOptions (a ∷ [])) (sym e) (assigned name v f (valid-IsValue v _ h) done)

step-IsOptions :
    (arg next : Text) (args : List Text) (s : Shape)
    → Reads arg s
    → check_step arg next (λ u. check_args (next ∷ args)) (λ u. check_args args) s ≡ ok tt
    → (check_args (next ∷ args) ≡ ok tt → IsOptions (next ∷ args))
    → (check_args args ≡ ok tt → IsOptions args)
    → IsOptions (arg ∷ next ∷ args)
step-IsOptions arg next args alien r h here behind = cc h
step-IsOptions arg next args bare r h here behind = switch arg r (here h)
step-IsOptions arg next args overfull r h here behind = cc h
step-IsOptions arg next args open_flag r h here behind =
    let (u, valid, rest) = >>=-eq-ok (require (valid_value next) (invalid_value arg)) _ h in
    spaced arg next r (valid-IsValue next _ valid) (behind rest)
step-IsOptions arg next args (joined v) (name, f, e) h here behind =
    let (u, valid, rest) = >>=-eq-ok (require (valid_value v) (invalid_value arg)) _ h in
    subst (λ a. IsOptions (a ∷ next ∷ args)) (sym e)
      (assigned name v f (valid-IsValue v _ valid) (here rest))

pub check_args-IsOptions : (args : List Text) → check_args args ≡ ok tt → IsOptions args
unfolding check_args
check_args-IsOptions [] h = done
check_args-IsOptions (arg ∷ []) h = last-IsOptions arg (shape arg) (shape-Reads arg) h
check_args-IsOptions (arg ∷ next ∷ args) h =
    step-IsOptions arg next args (shape arg) (shape-Reads arg) h
      (check_args-IsOptions (next ∷ args)) (check_args-IsOptions args)

pub IsOptions-check_args : (args : List Text) → IsOptions args → check_args args ≡ ok tt
unfolding check_args
IsOptions-check_args _ done = refl
IsOptions-check_args _ (switch {args = []} name f o) = rw (shape-of_flag name [] false f) refl
IsOptions-check_args _ (switch {args = next ∷ args} name f o) =
    rw (shape-of_flag name [] false f) (IsOptions-check_args (next ∷ args) o)
IsOptions-check_args _ (spaced {args = args} name value f valid o) =
    rw (shape-of_flag name [] true f)
      (rw ((valid_value_iff value).1 valid) (IsOptions-check_args args o))
IsOptions-check_args _ (assigned {args = []} name value f valid o) =
    rw (shape-assigned name value f) (rw ((valid_value_iff value).1 valid) refl)
IsOptions-check_args _ (assigned {args = next ∷ args} name value f valid o) =
    rw (shape-assigned name value f)
      (rw ((valid_value_iff value).1 valid) (IsOptions-check_args (next ∷ args) o))

supported :
    (darwin b : Bool)
    → (darwin ≡ true → b ≡ false)
    → require {E = ArgError} (not (darwin && b)) unsupported ≡ ok tt
supported false b h = refl
supported true b h = rw (h refl) refl

-- ValidateStrategyArgs accepts exactly the nonempty lists of options by the grammar: flags of the list
-- without a value, or with one of at most 64 plain characters, joined or in the next argument; for
-- macOS no argument may be one of those that it does not support.
pub validate_strategy_args_iff :
    (darwin : Bool) (args : List Text)
    → (validate_strategy_args darwin args ≡ ok tt) ↔ (
        IsOptions args
        × (is_empty args ≡ false)
        × (darwin ≡ true → contains_darwin_unsupported args ≡ false))
unfolding validate_strategy_args
validate_strategy_args_iff darwin args = (
  λ h.
      let (u, some_args, checked) =
        >>=-eq-ok (require (not (is_empty args)) empty_strategy >> check_args args) _ h in
      let (v, filled, good) =
        >>=-eq-ok (require (not (is_empty args)) empty_strategy) _ some_args in
      (
        check_args-IsOptions args good,
        ground (arith, require-eq-ok _ _ filled),
        λ d. ground (arith, require-eq-ok _ _ checked, d),
      ),
  λ p. rw p.1 (rw (IsOptions-check_args args p.0) (supported darwin _ p.2)),
)
