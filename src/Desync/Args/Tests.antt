-- ===== src/Desync/Args/Tests.antt =====
-- Argument lists that a ruleset may and may not use.
use offveil.Prelude.{
  ◌≡◌, refl, true, false, ◌↔◌, List, [], ◌∷◌, Text, codes, is_empty, ok, err, text_eq, cut,
  contains, lookup,
}
use offveil.Desync.Args.{
  flag_of, shape, valid_value, check_args, contains_darwin_unsupported, validate_strategy_args,
  not_allowed, darwin_letter,
}
use offveil.Desync.Args.Grammar.{IsOptions, validate_strategy_args_iff}

abbrev options : List Text
options = codes "--split" ∷ codes "1+s" ∷ codes "--auto=torst" ∷ codes "-N" ∷ []

accepted : validate_strategy_args true options ≡ ok tt
unfolding validate_strategy_args check_args shape flag_of lookup text_eq cut valid_value contains
    contains_darwin_unsupported darwin_letter
accepted = refl

refused : check_args (codes "--port" ∷ codes "1" ∷ []) ≡ err (not_allowed (codes "--port"))
unfolding check_args shape flag_of lookup text_eq cut
refused = refl

validate_strategy_args_iff_example : (validate_strategy_args true options ≡ ok tt) ↔ (
    IsOptions options
    × (is_empty options ≡ false)
    × (true ≡ true → contains_darwin_unsupported options ≡ false))
validate_strategy_args_iff_example = validate_strategy_args_iff true options
