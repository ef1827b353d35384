-- ===== src/Desync/Chain.antt =====
-- Strategies as they are deployed, and the candidates of a scan: offveil-core/internal/desync/chain.go.
pub mod Deployed
pub mod Torn
pub mod Candidates
mod Tests
use offveil.Prelude.{
  ℕ, ◌≡◌, Bool, true, false, not, ◌&&◌, ◌||◌, List, [], ◌∷◌, ◌++◌, Option, none, some, Text, codes,
  text_eq, is_empty, any, cut, lookup, has_suffix, trim_suffix, Result, ok, err, if◌then◌else◌,
}
use offveil.Ruleset.Document.{StrategySpec}
use offveil.Ruleset.Hosts.{member}
use offveil.Desync.Args.{ArgError, validate_strategy_args}

-- Strategy.
pub record Strategy : Type 0 where
  pub id : Text
  pub args : List Text
  pub note : Text

abbrev pub pass_through_suffix : Text
pass_through_suffix = codes "+pass"

abbrev pub auto_triggers : Text
auto_triggers = codes "torst,ssl_err"

-- The options of the whole process, and whether they take a value.
abbrev pub global_flags : List (Text × Bool)
global_flags =
    (codes "--no-domain", false)
    ∷ (codes "-N", false)
    ∷ (codes "--timeout", true)
    ∷ (codes "-T", true)
    ∷ []

-- An argument of a group, an option of the process that is complete, or one that takes the next argument.
pub data Place : Type 0 where
  in_group alone with_next : Place

abbrev place_of : Option Bool → Bool → Place
place_of none inline = in_group
place_of (some true) false = with_next
place_of (some true) true = alone
place_of (some false) inline = alone

unfoldable pub place : Text → Place
unfolding cut lookup
place arg = let (name, value, inline) = cut b'=' arg in place_of (lookup name global_flags) inline

abbrev pub to_globals : Text → List Text × List Text → List Text × List Text
to_globals arg (globals, groups) = (arg ∷ globals, groups)

abbrev pub to_groups : Text → List Text × List Text → List Text × List Text
to_groups arg (globals, groups) = (globals, arg ∷ groups)

abbrev pub part_last : Text → Place → List Text × List Text
part_last arg in_group = ([], arg ∷ [])
part_last arg alone = (arg ∷ [], [])
part_last arg with_next = (arg ∷ [], [])

-- One step of the loop: `here` goes on behind this argument, `behind` behind the next one.
abbrev pub part_step :
    Text
    → Text
    → (Unit {0} → List Text × List Text)
    → (Unit {0} → List Text × List Text)
    → Place
    → List Text × List Text
part_step arg next here behind in_group = to_groups arg (here tt)
part_step arg next here behind alone = to_globals arg (here tt)
part_step arg next here behind with_next = to_globals arg (to_globals next (behind tt))

-- The loop of PassThroughFirst: the options of the process, and what is left for the groups.
unfoldable pub part_args : List Text → List Text × List Text
part_args [] = ([], [])
part_args (arg ∷ []) = part_last arg (place arg)
part_args (arg ∷ next ∷ args) =
    part_step arg next (λ u. part_args (next ∷ args)) (λ u. part_args args) (place arg)

-- IsPassThrough and BaseID.
unfoldable pub is_pass_through : Strategy → Bool
is_pass_through s = has_suffix s.id pass_through_suffix

unfoldable pub base_id : Text → Text
base_id id = trim_suffix id pass_through_suffix

abbrev pub deploy : Strategy → List Text × List Text → Strategy
deploy s (globals, []) = s
deploy s (globals, g ∷ groups) = record {
  id = s.id ++ pass_through_suffix;
  args = globals ++ codes "--auto" ∷ auto_triggers ∷ g ∷ groups;
  note = codes "pass-through first; " ++ s.note;
}

-- PassThroughFirst.
unfoldable pub pass_through_first : Strategy → Strategy
pass_through_first s =
    if is_pass_through s || is_empty s.args then s else deploy s (part_args s.args)

-- hasFlag.
unfoldable pub has_flag : List Text → List Text → Bool
has_flag args names = any (λ arg. member (cut b'=' arg).0 names) args

-- The options that FromSpec puts in front.
abbrev pub prefix : Bool → List Text → List Text
prefix darwin args =
    if not darwin && not (has_flag args (codes "--timeout" ∷ codes "-T" ∷ []))
    then codes "--no-domain" ∷ codes "--timeout" ∷ codes "3" ∷ []
    else codes "--no-domain" ∷ []

abbrev from_checked :
    Bool → Text → List Text → Result ArgError (Unit {0}) → Result ArgError Strategy
from_checked darwin id args (err e) = err e
from_checked darwin id args (ok u) =
    ok (record {
      id = id;
      args = prefix darwin args ++ args;
      note = codes "signed ruleset candidate";
    })

-- FromSpec; `darwin` says that the system is macOS.
unfoldable pub from_spec : Bool → Text → List Text → Result ArgError Strategy
from_spec darwin id args = from_checked darwin id args (validate_strategy_args darwin args)

abbrev pub collect :
    Result ArgError Strategy → List Strategy × List ArgError → List Strategy × List ArgError
collect (ok s) (out, errs) = (s ∷ out, errs)
collect (err e) (out, errs) = (out, e ∷ errs)

-- CandidatesFrom; `goos` is the name of the system.
unfoldable pub candidates_from : Text → List StrategySpec → List Strategy × List ArgError
candidates_from goos [] = ([], [])
candidates_from goos (spec ∷ specs) =
    if not (is_empty spec.platform) && not (text_eq spec.platform goos)
    then candidates_from goos specs
    else collect (from_spec (text_eq goos (codes "darwin")) spec.id spec.args)
        (candidates_from goos specs)

-- The loop of MergeCandidates with the ids that it has seen.
unfoldable pub merge_from : List Text → List Strategy → List Strategy
merge_from seen [] = []
merge_from seen (s ∷ ss) =
    if is_empty s.id || member s.id seen
    then merge_from seen ss
    else s ∷ merge_from (s.id ∷ seen) ss

abbrev pub flatten : List (List Strategy) → List Strategy
flatten [] = []
flatten (group ∷ groups) = group ++ flatten groups

-- MergeCandidates.
unfoldable pub merge_candidates : List (List Strategy) → List Strategy
merge_candidates groups = merge_from [] (flatten groups)
