-- ===== src/Desync/Chain/Candidates.antt =====
-- The candidates of a scan: which strategies a ruleset adds, and which ones are tried.
use offveil.Prelude.{
  ◌≡◌, refl, sym, ◌∙◌, Bool, true, false, not, ◌&&◌, ◌||◌, List, [], ◌∷◌, ◌++◌, Option, none, some,
  Text, codes, text_eq, text_eq_iff, is_empty, cut, lookup, contains, arith, Bool-cases, inl, inr,
  All, Result, ok, err, if◌then◌else◌, subst,
}
use offveil.Ruleset.Document.{StrategySpec}
use offveil.Ruleset.Hosts.{member}
use offveil.Desync.Args.{
  flag_of, valid_value, ArgError, darwin_letter, contains_darwin_unsupported,
  validate_strategy_args,
}
use offveil.Desync.Args.Grammar.{IsOptions, switch, spaced, validate_strategy_args_iff}
use offveil.Desync.Chain.{
  Strategy, prefix, has_flag, from_spec, from_checked, collect, candidates_from, merge_from,
  flatten, merge_candidates,
}

-- A strategy that the helper of this system can be started with.
pub record IsRunnable (darwin : Bool) (s : Strategy) : Type 0 where
  pub options : IsOptions s.args
  pub supported : darwin ≡ true → contains_darwin_unsupported s.args ≡ false

prefix-IsOptions :
    (darwin : Bool) (args : List Text) → IsOptions args → IsOptions (prefix darwin args ++ args)
unfolding flag_of lookup text_eq valid_value
prefix-IsOptions darwin args o =
    go (not darwin && not (has_flag args (codes "--timeout" ∷ codes "-T" ∷ [])))
  where
    go :
        (timed : Bool)
        → IsOptions (
            (if timed
              then codes "--no-domain" ∷ codes "--timeout" ∷ codes "3" ∷ []
              else codes "--no-domain" ∷ [])
            ++ args)
    go true =
        switch (codes "--no-domain") refl
          (spaced (codes "--timeout") (codes "3") refl (omega arith, omega arith, refl) o)
    go false = switch (codes "--no-domain") refl o

prefix-supported :
    (args : List Text)
    → contains_darwin_unsupported args ≡ false
    → contains_darwin_unsupported (prefix true args ++ args) ≡ false
unfolding contains_darwin_unsupported cut text_eq darwin_letter contains
prefix-supported args h = h

prefix-Supported :
    (darwin : Bool) (args : List Text)
    → (darwin ≡ true → contains_darwin_unsupported args ≡ false)
    → darwin ≡ true
    → contains_darwin_unsupported (prefix darwin args ++ args) ≡ false
prefix-Supported true args h d = prefix-supported args (h refl)
prefix-Supported false args h d = cc d

ok_value : (a b : Strategy) → Path (Result ArgError Strategy) (ok a) (ok b) → a ≡ b
ok_value a b e = cc e

checked-IsRunnable :
    (darwin : Bool) (id : Text) (args : List Text) (r : Result ArgError (Unit {0})) (s : Strategy)
    → validate_strategy_args darwin args ≡ r
    → from_checked darwin id args r ≡ ok s
    → IsRunnable darwin s
checked-IsRunnable darwin id args (err e) s v h = cc h
checked-IsRunnable darwin id args (ok u) s v h =
    let (o, filled, sup) = (validate_strategy_args_iff darwin args).0 v in
    subst (IsRunnable darwin) (ok_value _ s h) (record {
      options = prefix-IsOptions darwin args o;
      supported = prefix-Supported darwin args sup;
    })

abbrev Runnable : Bool → List Strategy × List ArgError → Type 0
Runnable darwin out = All (IsRunnable darwin) out.0

collect-Runnable :
    (darwin : Bool) (r : Result ArgError Strategy) (out : List Strategy × List ArgError)
    → ((s : Strategy) → r ≡ ok s → IsRunnable darwin s)
    → Runnable darwin out
    → Runnable darwin (collect r out)
collect-Runnable darwin (ok s) out h rest = (h s refl, rest)
collect-Runnable darwin (err e) out h rest = rest

-- Every candidate that a signed ruleset adds has options by the grammar, the ones of the process in
-- front included, and on macOS none that it does not support.
pub candidates_from-IsRunnable :
    (goos : Text) (specs : List StrategySpec)
    → All (IsRunnable (text_eq goos (codes "darwin"))) (candidates_from goos specs).0
unfolding candidates_from from_spec
candidates_from-IsRunnable goos [] = tt
candidates_from-IsRunnable goos (spec ∷ specs) =
    elim (Bool-cases (not (is_empty spec.platform) && not (text_eq spec.platform goos))) [
      | inl skip ↦ simp skip (candidates_from-IsRunnable goos specs)
      | inr use_it ↦ simp use_it (
          collect-Runnable _ _ (candidates_from goos specs)
            (λ s h. checked-IsRunnable _ spec.id spec.args _ s refl h)
            (candidates_from-IsRunnable goos specs))
    ]

-- The first strategy of an id.
abbrev pub find : Text → List Strategy → Option Strategy
find id [] = none
find id (s ∷ ss) = if text_eq s.id id then some s else find id ss

abbrev pub Fresh : List Text → Strategy → Type 0
Fresh seen s = (is_empty s.id ≡ false) × (member s.id seen ≡ false)

-- No two strategies have the same id.
abbrev pub Distinct : List Strategy → Type 0
Distinct [] = Unit {0}
Distinct (s ∷ ss) = All (Fresh (s.id ∷ [])) ss × Distinct ss

passes :
    (s : Strategy) (id : Text) (ss : List Strategy)
    → text_eq s.id id ≡ false
    → find id (s ∷ ss) ≡ find id ss
passes s id ss e = rw e refl

merge-find :
    (seen : List Text) (ss : List Strategy) (id : Text)
    → is_empty id ≡ false
    → member id seen ≡ false
    → find id (merge_from seen ss) ≡ find id ss
unfolding merge_from
merge-find seen [] id f n = refl
merge-find seen (s ∷ ss) id f n = elim (Bool-cases (is_empty s.id || member s.id seen)) [
  | inl skip ↦ simp skip (merge-find seen ss id f n ∙ sym (passes s id ss (other skip)))
  | inr keep ↦ simp keep (elim (Bool-cases (text_eq s.id id)) [
    | inl e ↦ simp e refl
    | inr e ↦ simp e (merge-find (s.id ∷ seen) ss id f (ground (arith, n, e)))
  ])
]
  where
    other : is_empty s.id || member s.id seen ≡ true → text_eq s.id id ≡ false
    other skip = ground (arith, skip, f, n, text_eq_iff s.id id)

fresh-less :
    (seen : List Text) (id : Text) (ss : List Strategy)
    → All (Fresh (id ∷ seen)) ss
    → All (Fresh seen) ss
fresh-less seen id [] h = tt
fresh-less seen id (s ∷ ss) h = ((h.0.0, ground (arith, h.0.1)), fresh-less seen id ss h.1)

fresh-head :
    (seen : List Text) (id : Text) (ss : List Strategy)
    → All (Fresh (id ∷ seen)) ss
    → All (Fresh (id ∷ [])) ss
fresh-head seen id [] h = tt
fresh-head seen id (s ∷ ss) h = ((h.0.0, ground (arith, h.0.1)), fresh-head seen id ss h.1)

merge-Fresh : (seen : List Text) (ss : List Strategy) → All (Fresh seen) (merge_from seen ss)
unfolding merge_from
merge-Fresh seen [] = tt
merge-Fresh seen (s ∷ ss) = elim (Bool-cases (is_empty s.id || member s.id seen)) [
  | inl skip ↦ simp skip (merge-Fresh seen ss)
  | inr keep ↦ simp keep (
    (ground (arith, keep), ground (arith, keep)),
    fresh-less seen s.id (merge_from (s.id ∷ seen) ss) (merge-Fresh (s.id ∷ seen) ss),
  )
]

merge-Distinct : (seen : List Text) (ss : List Strategy) → Distinct (merge_from seen ss)
unfolding merge_from
merge-Distinct seen [] = tt
merge-Distinct seen (s ∷ ss) = elim (Bool-cases (is_empty s.id || member s.id seen)) [
  | inl skip ↦ simp skip (merge-Distinct seen ss)
  | inr keep ↦ simp keep (
    fresh-head seen s.id (merge_from (s.id ∷ seen) ss) (merge-Fresh (s.id ∷ seen) ss),
    merge-Distinct (s.id ∷ seen) ss,
  )
]

-- MergeCandidates keeps for every id but the empty one the first strategy that has it, and no two
-- strategies with the same id.
pub merge_candidates_lem :
    (groups : List (List Strategy))
    → ((id : Text)
        → is_empty id ≡ false
        → find id (merge_candidates groups) ≡ find id (flatten groups))
      × Distinct (merge_candidates groups)
      × All (Fresh []) (merge_candidates groups)
unfolding merge_candidates
merge_candidates_lem groups = (
  λ id f. merge-find [] (flatten groups) id f refl,
  merge-Distinct [] (flatten groups),
  merge-Fresh [] (flatten groups),
)
