-- ===== src/Desync/Chain/Tests.antt =====
-- Strategies of a ruleset on their way to the helper.
use offveil.Prelude.{
  ◌≡◌, refl, true, false, List, [], ◌∷◌, ◌++◌, Text, codes, All, ok, err, some, text_eq, cut,
  lookup, contains, has_suffix,
}
use offveil.Ruleset.Document.{StrategySpec}
use offveil.Desync.Args.{
  validate_strategy_args, shape, valid_value, flag_of, check_args, needs_value,
}
use offveil.Desync.Chain.{
  Strategy, place, part_args, is_pass_through, pass_through_first, in_group, candidates_from,
  prefix, from_spec,
}
use offveil.Desync.Chain.Deployed.{IsDeployed, pass_through_first-IsDeployed}
use offveil.Desync.Chain.Torn.{torn_value}
use offveil.Desync.Chain.Candidates.{IsRunnable, candidates_from-IsRunnable}

abbrev split_sni : Strategy
split_sni = record {
  id = codes "sni";
  args = codes "--no-domain" ∷ codes "--split" ∷ codes "1+s" ∷ codes "--timeout" ∷ codes "3" ∷ [];
  note = [];
}

deployed_args :
    (pass_through_first split_sni).args
    ≡ codes "--no-domain"
      ∷ codes "--timeout"
      ∷ codes "3"
      ∷ codes "--auto"
      ∷ codes "torst,ssl_err"
      ∷ codes "--split"
      ∷ codes "1+s"
      ∷ []
unfolding pass_through_first is_pass_through part_args place lookup cut text_eq has_suffix
deployed_args = refl

pass_through_first-IsDeployed_example : IsDeployed split_sni (pass_through_first split_sni)
pass_through_first-IsDeployed_example = pass_through_first-IsDeployed split_sni

abbrev sni_args : List Text
sni_args = codes "--fake-sni" ∷ codes "-N" ∷ []

abbrev sni_n : Strategy
sni_n = record { id = codes "n"; args = prefix false sni_args ++ sni_args; note = [] }

made :
    from_spec false (codes "n") sni_args
    ≡ ok (record sni_n { note = codes "signed ruleset candidate" })
unfolding from_spec validate_strategy_args check_args shape lookup cut valid_value contains
made = refl

sni_n-plain : is_pass_through sni_n ≡ false
unfolding is_pass_through has_suffix text_eq
sni_n-plain = refl

fake_sni-flag : flag_of (codes "--fake-sni") ≡ some true
unfolding flag_of lookup text_eq
fake_sni-flag = refl

fake_sni-place : place (codes "--fake-sni") ≡ in_group
unfolding place cut lookup text_eq
fake_sni-place = refl

torn_value_example :
    (check_args sni_args ≡ ok tt)
    × (check_args (pass_through_first sni_n).args ≡ err (needs_value (codes "--fake-sni")))
torn_value_example =
    torn_value false (codes "--fake-sni") sni_n sni_n-plain refl fake_sni-flag fake_sni-place

abbrev specs : List StrategySpec
specs =
    record { id = codes "a"; platform = []; args = codes "--split" ∷ codes "1" ∷ [] }
    ∷ record { id = codes "b"; platform = codes "darwin"; args = codes "--port=1" ∷ [] }
    ∷ []

candidates_from-IsRunnable_example :
    All
      (IsRunnable (text_eq (codes "darwin") (codes "darwin")))
      (candidates_from (codes "darwin") specs).0
candidates_from-IsRunnable_example = candidates_from-IsRunnable (codes "darwin") specs

abbrev groups : List (List Strategy)
groups = (split_sni ∷ sni_n ∷ []) ∷ (record sni_n { id = codes "sni" } ∷ []) ∷ []
