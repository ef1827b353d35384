-- ===== src/Ruleset/Document.antt =====
-- The signed document and the channel: the types of offveil-core/internal/ruleset/types.go.
use offveil.Prelude.{ℕ, Bool, List, Text, codes}

-- Kinds of canary groups.
abbrev pub canary_persistent : Text
canary_persistent = codes "persistent"

abbrev pub canary_crisis : Text
canary_crisis = codes "crisis"

-- SchemaVersion.
abbrev pub supported_schema : ℕ
supported_schema = 3

abbrev pub min_version : ℕ
min_version = 8

abbrev pub max_canary_groups : ℕ
max_canary_groups = 32

abbrev pub max_canary_hosts : ℕ
max_canary_hosts = 16

abbrev pub max_canary_suffixes : ℕ
max_canary_suffixes = 64

abbrev pub max_exclude : ℕ
max_exclude = 256

abbrev pub max_strategies : ℕ
max_strategies = 32

abbrev pub max_strategy_args : ℕ
max_strategy_args = 32

abbrev pub max_strategy_arg_size : ℕ
max_strategy_arg_size = 64

abbrev pub max_poison_ips : ℕ
max_poison_ips = 64

pub record CanaryGroup : Type 0 where
  pub id : Text
  pub label : Text
  pub kind : Text
  pub probe_hosts : List Text
  pub domain_suffix : List Text

pub record StrategySpec : Type 0 where
  pub id : Text
  pub platform : Text
  pub args : List Text

pub record RouteRule : Type 0 where
  pub domains : List Text
  pub domain_suffix : List Text
  pub path : Text

pub record NetworkPolicy : Type 0 where
  pub control_hosts : List Text
  pub routes : List RouteRule

pub record Package : Type 0 where
  pub id : Text
  pub label : Text
  pub kind : Text
  pub default_enabled : Bool
  pub path_force : Text
  pub domains : List Text
  pub domain_suffix : List Text
  pub resolve_hosts : List Text
  pub probe_hosts : List Text

-- Versions are not negative here: a negative one is refused like any other below the minimum.
pub record Document : Type 0 where
  pub schema_version : ℕ
  pub version : ℕ
  pub updated_at : Text
  pub network : NetworkPolicy
  pub canaries : List CanaryGroup
  pub exclude : List Text
  pub strategies : List StrategySpec
  pub poison_ips : List Text
  pub packages : List Package

-- Why a document is refused.
pub data Error : Type 0 where
  bad_json few_controls route_empty many_canaries many_excludes many_strategies many_poison : Error
  unsupported_schema old_version : ℕ → Error
  packages_unsupported : Error
  bad_control bad_route_path bad_route_host bad_canary_id bad_canary_kind : Text → Error
  bad_probe_count bad_suffix_count bad_canary_host probe_outside bad_exclude : Text → Error
  bad_strategy_id bad_platform bad_args_count bad_arg bad_poison : Text → Error
