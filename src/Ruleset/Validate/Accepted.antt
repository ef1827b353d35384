-- ===== src/Ruleset/Validate/Accepted.antt =====
-- What an accepted document looks like.
use offveil.Prelude.{
  ◌≤◌, ◌≡◌, true, false, not, ◌||◌, List, [], Option, Text, is_empty, length, ltb, ◌==◌, all, ok,
  require, arith, All, inl, inr, >>=-eq-ok, Option-cases,
}
use offveil.Ruleset.Hosts.{unique_hosts}
use offveil.Ruleset.Sets.{Distinct, unique_hosts_lem}
use offveil.Ruleset.Document.{
  supported_schema, min_version, CanaryGroup, RouteRule, Document, bad_control, bad_exclude,
  many_excludes, many_poison, few_controls, unsupported_schema, old_version, packages_unsupported,
  max_canary_groups, max_exclude, max_strategies, max_poison_ips,
}
use offveil.Ruleset.Validate.{
  check_hosts, check_routes, validate_canaries, validate_strategies, is_poison_ip, check_poison,
  validate, parse_document,
}
use offveil.Ruleset.Validate.Checks.{
  AreHosts, check_hosts-AreHosts, IsRoute, check_routes-IsRoute, IsCanary, ids, keys, IsStrategy,
  check_poison-all, validate_canaries-IsCanary, validate_strategies-IsStrategy,
}

-- What parsing promises of a document.
pub record IsAccepted (d : Document) : Type 0 where
  pub schema : d.schema_version ≡ supported_schema
  pub recent : min_version ≤ d.version
  pub no_packages : d.packages ≡ []
  pub some_controls : 2 ≤ length d.network.control_hosts
  pub few_controls : length d.network.control_hosts ≤ 16
  pub controls_distinct : Distinct d.network.control_hosts
  pub controls_valid : AreHosts d.network.control_hosts
  pub routes_valid : All IsRoute d.network.routes
  pub few_canaries : length d.canaries ≤ max_canary_groups
  pub canaries_valid : All IsCanary d.canaries
  pub canaries_distinct : Distinct (ids d.canaries)
  pub few_excludes : length d.exclude ≤ max_exclude
  pub exclude_valid : AreHosts d.exclude
  pub few_strategies : length d.strategies ≤ max_strategies
  pub strategies_valid : All IsStrategy d.strategies
  pub strategies_distinct : Distinct (keys d.strategies)
  pub few_poison : length d.poison_ips ≤ max_poison_ips
  pub poison_valid : all is_poison_ip d.poison_ips ≡ true

-- Every test passed, and the parts that the loops write back.
record Passed (doc d : Document) : Type 0 where
  rs : List RouteRule
  gs : List CanaryGroup
  result : d ≡ record doc {
    network = record { control_hosts = unique_hosts doc.network.control_hosts; routes = rs };
    canaries = gs;
    exclude = unique_hosts doc.exclude;
  }
  schema : (doc.schema_version == supported_schema) ≡ true
  recent : ltb doc.version min_version ≡ false
  no_packages : is_empty doc.packages ≡ true
  some_controls : ltb (length (unique_hosts doc.network.control_hosts)) 2 ≡ false
  few_controls : ltb 16 (length (unique_hosts doc.network.control_hosts)) ≡ false
  controls : AreHosts (unique_hosts doc.network.control_hosts)
  routes : check_routes doc.network.routes ≡ ok rs
  canaries : validate_canaries doc.canaries ≡ ok gs
  few_excludes : ltb max_exclude (length (unique_hosts doc.exclude)) ≡ false
  excludes : AreHosts (unique_hosts doc.exclude)
  strategies : validate_strategies doc.strategies ≡ ok tt
  few_poison : ltb max_poison_ips (length doc.poison_ips) ≡ false
  poison : check_poison doc.poison_ips ≡ ok tt

validate-Passed : (doc d : Document) → validate doc ≡ ok d → Passed doc d
unfolding validate
validate-Passed doc d h =
    let controls = unique_hosts doc.network.control_hosts in
    let exclude = unique_hosts doc.exclude in
    let (u0, schema, h0) =
      >>=-eq-ok
        (require (doc.schema_version == supported_schema) (unsupported_schema doc.schema_version)) _
        h in
    let (u1, recent, h1) =
      >>=-eq-ok (require (not (ltb doc.version min_version)) (old_version doc.version)) _ h0 in
    let (u2, no_packages, h2) =
      >>=-eq-ok (require (is_empty doc.packages) packages_unsupported) _ h1 in
    let (u3, count, h3) =
      >>=-eq-ok (require (not (ltb (length controls) 2 || ltb 16 (length controls))) few_controls) _
        h2 in
    let (u4, hosts, h4) = >>=-eq-ok (check_hosts bad_control controls) _ h3 in
    let (rs, routes, h5) = >>=-eq-ok (check_routes doc.network.routes) _ h4 in
    let (gs, canaries, h6) = >>=-eq-ok (validate_canaries doc.canaries) _ h5 in
    let (u7, few_excludes, h7) =
      >>=-eq-ok (require (not (ltb max_exclude (length exclude))) many_excludes) _ h6 in
    let (u8, excludes, h8) = >>=-eq-ok (check_hosts bad_exclude exclude) _ h7 in
    let (u9, strategies, h9) = >>=-eq-ok (validate_strategies doc.strategies) _ h8 in
    let (u10, few_poison, h10) =
      >>=-eq-ok (require (not (ltb max_poison_ips (length doc.poison_ips))) many_poison) _ h9 in
    let (u11, poison, h11) = >>=-eq-ok (check_poison doc.poison_ips) _ h10 in
    record {
      rs = rs;
      gs = gs;
      result = ground (arith, h11);
      schema = ground (arith, schema);
      recent = ground (arith, recent);
      no_packages = ground (arith, no_packages);
      some_controls = ground (arith, count);
      few_controls = ground (arith, count);
      controls = check_hosts-AreHosts bad_control controls hosts;
      routes = routes;
      canaries = canaries;
      few_excludes = ground (arith, few_excludes);
      excludes = check_hosts-AreHosts bad_exclude exclude excludes;
      strategies = strategies;
      few_poison = ground (arith, few_poison);
      poison = poison;
    }

Passed-IsAccepted : (doc d : Document) → Passed doc d → IsAccepted d
Passed-IsAccepted doc d p =
    let (good, distinct, few) = validate_canaries-IsCanary doc.canaries p.gs p.canaries in
    let (fit, apart, some_few) = validate_strategies-IsStrategy doc.strategies p.strategies in
    rw p.result (record {
      schema = ground (arith, p.schema);
      recent = ground (arith, p.recent);
      no_packages = ground (arith, p.no_packages);
      some_controls = ground (arith, p.some_controls);
      few_controls = ground (arith, p.few_controls);
      controls_distinct = (unique_hosts_lem doc.network.control_hosts).0;
      controls_valid = p.controls;
      routes_valid = check_routes-IsRoute doc.network.routes p.rs p.routes;
      few_canaries = few;
      canaries_valid = good;
      canaries_distinct = distinct;
      few_excludes = ground (arith, p.few_excludes);
      exclude_valid = p.excludes;
      few_strategies = some_few;
      strategies_valid = fit;
      strategies_distinct = apart;
      few_poison = ground (arith, p.few_poison);
      poison_valid = check_poison-all doc.poison_ips p.poison;
    })

-- A document that parses has the supported schema, no packages, two to sixteen distinct valid
-- control hosts, direct routes with valid hosts, canary groups with distinct ids whose probe hosts
-- lie under their own suffixes, valid exclusions, distinct strategies with valid arguments and IPv4
-- poison addresses, and every list is within its limit.
pub parse_document-IsAccepted :
    (unmarshal : Text → Option Document) (raw : Text) (d : Document)
    → parse_document unmarshal raw ≡ ok d
    → IsAccepted d
unfolding parse_document
parse_document-IsAccepted unmarshal raw d h = elim (Option-cases (unmarshal raw)) [
  | inl e ↦ ground (arith, e)
  | inr (doc, e) ↦ Passed-IsAccepted doc d (validate-Passed doc d (rw (e, parse_document) at h))
]
