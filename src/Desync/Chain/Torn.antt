-- ===== src/Desync/Chain/Torn.antt =====
-- A strategy whose deployment tears a value from its flag.
use offveil.Prelude.{
  ◌≡◌, not, ◌&&◌, refl, ap, ◌∙◌, Bool, true, false, List, [], ◌∷◌, ◌++◌, Text, codes, text_eq,
  Bool-cases, inl, inr, contains, lookup, cut, some, ok, err,
}
use offveil.Desync.Args.{flag_of, valid_value, check_args, needs_value, bare, open_flag, shape}
use offveil.Desync.Args.Grammar.{spaced, done, IsOptions-check_args, valid_value_iff, shape-of_flag}
use offveil.Desync.Chain.{
  Strategy, auto_triggers, in_group, alone, with_next, place, part_args, is_pass_through, deploy,
  pass_through_first, prefix, has_flag,
}
use offveil.Desync.Chain.Deployed.{changed}

n-bare : shape (codes "-N") ≡ bare
unfolding shape flag_of lookup cut text_eq
n-bare = refl

auto-open_flag : shape (codes "--auto") ≡ open_flag
unfolding shape flag_of lookup cut text_eq
auto-open_flag = refl

triggers-valid : valid_value auto_triggers ≡ true
unfolding valid_value contains
triggers-valid = refl

n-valid : valid_value (codes "-N") ≡ true
unfolding valid_value contains
n-valid = refl

n-alone : place (codes "-N") ≡ alone
unfolding place lookup cut text_eq
n-alone = refl

no_domain-bare : shape (codes "--no-domain") ≡ bare
unfolding shape flag_of lookup cut text_eq
no_domain-bare = refl

timeout-open_flag : shape (codes "--timeout") ≡ open_flag
unfolding shape flag_of lookup cut text_eq
timeout-open_flag = refl

three-valid : valid_value (codes "3") ≡ true
unfolding valid_value contains
three-valid = refl

no_domain-alone : place (codes "--no-domain") ≡ alone
unfolding place lookup cut text_eq
no_domain-alone = refl

timeout-with_next : place (codes "--timeout") ≡ with_next
unfolding place lookup cut text_eq
timeout-with_next = refl

-- A flag without its value, behind the empty first group.
abbrev torn : Text → List Text
torn name = codes "-N" ∷ codes "--auto" ∷ auto_triggers ∷ name ∷ []

refused : (name : Text) → flag_of name ≡ some true → check_args (torn name) ≡ err (needs_value name)
unfolding check_args
refused name f =
    rw n-bare (rw auto-open_flag (rw triggers-valid (rw (shape-of_flag name [] true f) refl)))

-- The same behind the options that FromSpec puts in front, with and without the timeout.
abbrev options : Bool → List Text
options true = codes "--no-domain" ∷ codes "--timeout" ∷ codes "3" ∷ []
options false = codes "--no-domain" ∷ []

refused_behind :
    (timed : Bool) (name : Text)
    → flag_of name ≡ some true
    → check_args (options timed ++ torn name) ≡ err (needs_value name)
unfolding check_args
refused_behind true name f =
    rw no_domain-bare (rw timeout-open_flag (rw three-valid (refused name f)))
refused_behind false name f = rw no_domain-bare (refused name f)

torn_parts :
    (timed : Bool) (name : Text)
    → place name ≡ in_group
    → part_args (options timed ++ name ∷ codes "-N" ∷ [])
      ≡ (options timed ++ codes "-N" ∷ [], name ∷ [])
unfolding part_args
torn_parts true name g = rw no_domain-alone (rw timeout-with_next (rw g (rw n-alone refl)))
torn_parts false name g = rw no_domain-alone (rw g (rw n-alone refl))

prefix-options :
    (darwin : Bool) (args : List Text) → (timed : Bool) × (prefix darwin args ≡ options timed)
unfolding has_flag
prefix-options darwin args =
    elim (Bool-cases (not darwin && not (has_flag args (codes "--timeout" ∷ codes "-T" ∷ [])))) [
      | inl e ↦ (true, rw e refl)
      | inr e ↦ (false, rw e refl)
    ]

torn_args :
    (timed : Bool) (name : Text) (s : Strategy)
    → is_pass_through s ≡ false
    → s.args ≡ options timed ++ name ∷ codes "-N" ∷ []
    → place name ≡ in_group
    → (pass_through_first s).args ≡ options timed ++ torn name
torn_args true name s n e g =
    ap Strategy.args (changed s n (rw e refl))
    ∙ ap (λ parts. (deploy s parts).args) (ap part_args e ∙ torn_parts true name g)
torn_args false name s n e g =
    ap Strategy.args (changed s n (rw e refl))
    ∙ ap (λ parts. (deploy s parts).args) (ap part_args e ∙ torn_parts false name g)

-- A ruleset may list a strategy with one flag of a group, whose value is `-N`, which is also spelled like an
-- option of the process. These arguments pass the check of the options. But where the strategy is not
-- marked as deployed and has them behind the options that FromSpec puts in front, the arguments of its
-- deployed form do not pass it: `-N` is moved to the front, and the flag is left without its value.
pub torn_value :
    (darwin : Bool) (name : Text) (s : Strategy)
    → is_pass_through s ≡ false
    → s.args ≡ prefix darwin (name ∷ codes "-N" ∷ []) ++ name ∷ codes "-N" ∷ []
    → flag_of name ≡ some true
    → place name ≡ in_group
    → (check_args (name ∷ codes "-N" ∷ []) ≡ ok tt)
      × (check_args (pass_through_first s).args ≡ err (needs_value name))
torn_value darwin name s n e f g =
    let args = name ∷ codes "-N" ∷ [] in
    let (timed, p) = prefix-options darwin args in
    (
      IsOptions-check_args _ (spaced name (codes "-N") f ((valid_value_iff _).0 n-valid) done),
      ap check_args (torn_args timed name s n (e ∙ ap (λ o. o ++ args) p) g)
          ∙ refused_behind timed name f,
    )
