-- ===== src/Desync/Chain/Deployed.antt =====
-- What deploying a strategy does to its arguments and its id.
use offveil.Prelude.{
  ◌≡◌, ◌≢◌, true-not_false, refl, sym, ap, ◌∙◌, true, false, List, [], ◌∷◌, ◌++◌, Text, codes,
  is_empty, arith, Bool-cases, inl, inr, trim_suffix, has_suffix-append, take, length,
  length-append, subst, ◌-◌,
}
use offveil.Desync.Chain.{
  Strategy, pass_through_suffix, auto_triggers, Place, in_group, alone, with_next, place, part_last,
  part_step, part_args, is_pass_through, base_id, deploy, pass_through_first,
}

-- How the arguments of a strategy fall apart: the options of the whole process, with the values that
-- they take from the next argument, and the others, both in their order.
pub data IsParted : List Text → List Text → List Text → Type 0 where
  nothing : IsParted [] [] []
  of_group :
      (arg : Text) {args globals groups : List Text}
      → place arg ≡ in_group
      → IsParted args globals groups
      → IsParted (arg ∷ args) globals (arg ∷ groups)
  complete :
      (arg : Text) {args globals groups : List Text}
      → place arg ≡ alone
      → IsParted args globals groups
      → IsParted (arg ∷ args) (arg ∷ globals) groups
  valued :
      (arg value : Text) {args globals groups : List Text}
      → place arg ≡ with_next
      → IsParted args globals groups
      → IsParted (arg ∷ value ∷ args) (arg ∷ value ∷ globals) groups
  unvalued : (arg : Text) → place arg ≡ with_next → IsParted (arg ∷ []) (arg ∷ []) []

abbrev Parts : List Text → List Text × List Text → Type 0
Parts args (globals, groups) = IsParted args globals groups

last-Parts : (arg : Text) (s : Place) → place arg ≡ s → Parts (arg ∷ []) (part_last arg s)
last-Parts arg in_group e = of_group arg e nothing
last-Parts arg alone e = complete arg e nothing
last-Parts arg with_next e = unvalued arg e

step-Parts :
    (arg next : Text) (args : List Text) (s : Place)
    → place arg ≡ s
    → Parts (next ∷ args) (part_args (next ∷ args))
    → Parts args (part_args args)
    → Parts
        (arg ∷ next ∷ args)
        (part_step arg next (λ u. part_args (next ∷ args)) (λ u. part_args args) s)
step-Parts arg next args in_group e h b = of_group arg e h
step-Parts arg next args alone e h b = complete arg e h
step-Parts arg next args with_next e h b = valued arg next e b

part_args-Parts : (args : List Text) → Parts args (part_args args)
unfolding part_args
part_args-Parts [] = nothing
part_args-Parts (arg ∷ []) = last-Parts arg (place arg) refl
part_args-Parts (arg ∷ next ∷ args) =
    step-Parts arg next args (place arg) refl (part_args-Parts (next ∷ args)) (part_args-Parts args)

take-append : (xs ys : Text) → take (length xs) (xs ++ ys) ≡ xs
take-append [] ys = refl
take-append (x ∷ xs) ys = ap (◌∷◌ x) (take-append xs ys)

trim_suffix-append : (s t : Text) → trim_suffix (s ++ t) t ≡ s
unfolding trim_suffix
trim_suffix-append s t =
    let e : length (s ++ t) - length t ≡ length s = omega (arith, length-append {0} s t) in
    rw (has_suffix-append s t) (rw e (take-append s t))

base_id-append : (id : Text) → base_id (id ++ pass_through_suffix) ≡ id
unfolding base_id
base_id-append id = trim_suffix-append id pass_through_suffix

base_id-plain : (s : Strategy) → is_pass_through s ≡ false → base_id s.id ≡ s.id
unfolding base_id trim_suffix is_pass_through
base_id-plain s h = rw h refl

pass_through_first-pass : (s : Strategy) → is_pass_through s ≡ true → pass_through_first s ≡ s
unfolding pass_through_first
pass_through_first-pass s h = rw h refl

-- The deployed form of a strategy: the strategy itself where it is deployed already or has no argument of a
-- group, and otherwise the options of the process, an empty first group, and the groups.
pub data IsForm (s : Strategy) : Strategy → Type 0 where
  already : is_pass_through s ≡ true → IsForm s s
  no_group : {globals : List Text} → IsParted s.args globals [] → IsForm s s
  with_first :
      {globals groups : List Text} (d : Strategy)
      → IsParted s.args globals groups
      → groups ≢ []
      → is_pass_through s ≡ false
      → d.args ≡ globals ++ codes "--auto" ∷ auto_triggers ∷ groups
      → d.id ≡ s.id ++ pass_through_suffix
      → IsForm s d

-- What the deployment of a strategy keeps.
pub record IsDeployed (s d : Strategy) : Type 0 where
  pub again : pass_through_first d ≡ d
  pub base : base_id d.id ≡ base_id s.id
  pub form : IsForm s d

marked :
    (s : Strategy) (args : List Text) (note : Text)
    → is_pass_through (record { id = s.id ++ pass_through_suffix; args = args; note = note }) ≡ true
unfolding is_pass_through
marked s args note = has_suffix-append s.id pass_through_suffix

deploy-IsDeployed :
    (s : Strategy) (parts : List Text × List Text)
    → is_pass_through s ≡ false
    → pass_through_first s ≡ deploy s parts
    → Parts s.args parts
    → IsDeployed s (deploy s parts)
deploy-IsDeployed s (globals, []) h e c = record { again = e; base = refl; form = no_group c }
deploy-IsDeployed s (globals, g ∷ groups) h e c = record {
  again = pass_through_first-pass _ (marked s _ _);
  base = base_id-append s.id ∙ sym (base_id-plain s h);
  form = with_first (deploy s (globals, g ∷ groups)) c (λ k. cc k) h refl refl;
}

empty-Parted : (args : List Text) → is_empty args ≡ true → IsParted args [] []
empty-Parted [] e = nothing
empty-Parted (a ∷ args) e = absurd (true-not_false (sym e))

unchanged : (s : Strategy) → is_empty s.args ≡ true → pass_through_first s ≡ s
unfolding pass_through_first
unchanged s z = ground (arith, z)

pub changed :
    (s : Strategy)
    → is_pass_through s ≡ false
    → is_empty s.args ≡ false
    → pass_through_first s ≡ deploy s (part_args s.args)
unfolding pass_through_first
changed s n f = ground (arith, n, f)

-- PassThroughFirst changes nothing the second time and keeps the base id. A strategy that is deployed
-- already, or has no argument but options of the whole process, stays as it is. Every other one
-- gets the options of the process first, with their values, then the empty first group, and then
-- the other arguments, each in the order that they had, under its id with the suffix.
pub pass_through_first-IsDeployed : (s : Strategy) → IsDeployed s (pass_through_first s)
pass_through_first-IsDeployed s = elim (Bool-cases (is_pass_through s)) [
  | inl y ↦
      let e = pass_through_first-pass s y in
      subst (IsDeployed s) (sym e) (record { again = e; base = refl; form = already y })
  | inr n ↦ elim (Bool-cases (is_empty s.args)) [
    | inl z ↦
        let e = unchanged s z in
        subst (IsDeployed s) (sym e)
          (record { again = e; base = refl; form = no_group (empty-Parted s.args z) })
    | inr f ↦
        subst (IsDeployed s) (sym (changed s n f))
          (deploy-IsDeployed s (part_args s.args) n (changed s n f) (part_args-Parts s.args))
  ]
]
