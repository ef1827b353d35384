-- ===== src/Ruleset/Validate.antt =====
-- ParseDocument and its checks: offveil-core/internal/ruleset/types.go.
pub mod Checks
pub mod Accepted
mod Tests
use offveil.Prelude.{
  ℕ, ◌+◌, ◌≡◌, refl, Bool, true, false, not, ◌&&◌, ◌||◌, List, [], ◌∷◌, ◌++◌, Option, none, some,
  Text, codes, is_empty, length, leb, ltb, ◌==◌, if◌then◌else◌, all, any, contains, text_eq, Result,
  ok, err, ◌>>=◌, ◌>>◌, require,
}
use offveil.Netip.{parse_ipv4}
use offveil.Ruleset.Hosts.{unique_hosts, valid_hostname, match_suffix, member}
use offveil.Ruleset.Document.{
  supported_schema, min_version, CanaryGroup, StrategySpec, RouteRule, NetworkPolicy, Document,
  Error, bad_json, few_controls, route_empty, many_canaries, many_excludes, many_strategies,
  many_poison, unsupported_schema, old_version, packages_unsupported, bad_control, bad_route_path,
  bad_route_host, bad_canary_id, bad_canary_kind, bad_probe_count, bad_suffix_count,
  bad_canary_host, probe_outside, bad_exclude, bad_strategy_id, bad_platform, bad_args_count,
  bad_arg, bad_poison, canary_persistent, canary_crisis, max_canary_groups, max_canary_hosts,
  max_canary_suffixes, max_exclude, max_strategies, max_strategy_args, max_strategy_arg_size,
  max_poison_ips,
}

abbrev Checked : Type 0 → Type 0
Checked = Result Error

-- A loop that returns the error of the first host that is no valid name.
unfoldable pub check_hosts : (Text → Error) → List Text → Checked (Unit {0})
check_hosts e [] = ok tt
check_hosts e (host ∷ hosts) =
    let rest = check_hosts e hosts in if valid_hostname host then rest else err (e host)

-- The loops over the routes and over the canary groups write each checked element back.
check_route : RouteRule → Checked RouteRule
check_route rule =
    let domains = unique_hosts rule.domains in
    let suffixes = unique_hosts rule.domain_suffix in
    do
      require (text_eq rule.path (codes "direct")) (bad_route_path rule.path)
      require (not (length domains + length suffixes == 0)) route_empty
      check_hosts bad_route_host (domains ++ suffixes)
      ok (record rule { domains = domains; domain_suffix = suffixes })

pub check_routes : List RouteRule → Checked (List RouteRule)
check_routes [] = ok []
check_routes (rule ∷ rules) = do r ← check_route rule; rs ← check_routes rules; ok (r ∷ rs)

unfoldable pub valid_group_id : Text → Bool
valid_group_id id =
    not (is_empty id || ltb 32 (length id))
    && all (λ c. (leb b'a' c && leb c b'z') || (leb b'0' c && leb c b'9') || c == b'-') id

check_probes : List Text → List Text → Checked (Unit {0})
check_probes suffixes [] = ok tt
check_probes suffixes (host ∷ hosts) =
    let rest = check_probes suffixes hosts in
    if match_suffix host suffixes then rest else err (probe_outside host)

check_canary : List Text → CanaryGroup → Checked CanaryGroup
check_canary seen group =
    let probes = unique_hosts group.probe_hosts in
    let suffixes = unique_hosts group.domain_suffix in
    do
      require (valid_group_id group.id && not (member group.id seen)) (bad_canary_id group.id)
      require (text_eq group.kind canary_persistent || text_eq group.kind canary_crisis)
          (bad_canary_kind group.kind)
      require (not (is_empty probes || ltb max_canary_hosts (length probes)))
          (bad_probe_count group.id)
      require (not (is_empty suffixes || ltb max_canary_suffixes (length suffixes)))
          (bad_suffix_count group.id)
      check_hosts bad_canary_host (probes ++ suffixes)
      check_probes suffixes probes
      ok (record group { probe_hosts = probes; domain_suffix = suffixes })

check_canaries : List Text → List CanaryGroup → Checked (List CanaryGroup)
check_canaries seen [] = ok []
check_canaries seen (group ∷ groups) = do
  g ← check_canary seen group
  gs ← check_canaries (group.id ∷ seen) groups
  ok (g ∷ gs)

pub validate_canaries : List CanaryGroup → Checked (List CanaryGroup)
validate_canaries groups = do
  require (not (ltb max_canary_groups (length groups))) many_canaries
  check_canaries [] groups

-- NUL, carriage return, line feed, backslash and slash.
unfoldable pub forbidden : ℕ → Bool
forbidden c = c == 0 || c == 13 || c == 10 || c == 92 || c == 47

unfoldable pub valid_arg : Text → Bool
unfolding forbidden
valid_arg arg = not (is_empty arg || ltb max_strategy_arg_size (length arg) || any forbidden arg)

-- The key of a strategy in `seen`.
abbrev pub strategy_key : StrategySpec → Text
strategy_key spec = spec.platform ++ b'|' ∷ spec.id

check_strategy : List Text → StrategySpec → Checked (Unit {0})
check_strategy seen spec = do
  require (not (is_empty spec.id || ltb 64 (length spec.id) || member (strategy_key spec) seen))
      (bad_strategy_id spec.id)
  require
      (is_empty spec.platform
        || text_eq spec.platform (codes "windows")
        || text_eq spec.platform (codes "darwin"))
      (bad_platform spec.id)
  require (not (is_empty spec.args || ltb max_strategy_args (length spec.args)))
      (bad_args_count spec.id)
  require (all valid_arg spec.args) (bad_arg spec.id)

check_strategies : List Text → List StrategySpec → Checked (Unit {0})
check_strategies seen [] = ok tt
check_strategies seen (spec ∷ specs) = do
  check_strategy seen spec
  check_strategies (strategy_key spec ∷ seen) specs

pub validate_strategies : List StrategySpec → Checked (Unit {0})
validate_strategies specs = do
  require (not (ltb max_strategies (length specs))) many_strategies
  check_strategies [] specs

-- `netip.ParseAddr` succeeds with an address that `Is4`: an IPv4 literal.
unfoldable pub is_poison_ip : Text → Bool
is_poison_ip raw = elim (parse_ipv4 raw) [ none ↦ false | some a ↦ true ]

pub check_poison : List Text → Checked (Unit {0})
check_poison [] = ok tt
check_poison (raw ∷ raws) =
    let rest = check_poison raws in if is_poison_ip raw then rest else err (bad_poison raw)

-- ParseDocument behind the JSON decoder.
pub validate : Document → Checked Document
validate doc =
    let controls = unique_hosts doc.network.control_hosts in
    let exclude = unique_hosts doc.exclude in
    do
      require (doc.schema_version == supported_schema) (unsupported_schema doc.schema_version)
      require (not (ltb doc.version min_version)) (old_version doc.version)
      require (is_empty doc.packages) packages_unsupported
      require (not (ltb (length controls) 2 || ltb 16 (length controls))) few_controls
      check_hosts bad_control controls
      routes ← check_routes doc.network.routes
      canaries ← validate_canaries doc.canaries
      require (not (ltb max_exclude (length exclude))) many_excludes
      check_hosts bad_exclude exclude
      validate_strategies doc.strategies
      require (not (ltb max_poison_ips (length doc.poison_ips))) many_poison
      check_poison doc.poison_ips
      ok (record doc {
        network = record { control_hosts = controls; routes = routes };
        canaries = canaries;
        exclude = exclude;
      })

-- `json.Unmarshal` is a parameter; it yields no document on an error.
pub parse_document : (Text → Option Document) → Text → Checked Document
parse_document unmarshal raw = elim (unmarshal raw) [
  | none ↦ err bad_json
  | some doc ↦ validate doc
]
