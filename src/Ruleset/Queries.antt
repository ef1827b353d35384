-- ===== src/Ruleset/Queries.antt =====
-- What the engine asks of a document: the methods of Document and Package in
-- offveil-core/internal/ruleset/types.go and match.go. A package's pair `(Package, bool)` is an
-- Option; the set of hosts already known is a list.
use offveil.Prelude.{
  ℕ, Bool, not, ◌&&◌, ◌||◌, List, [], ◌∷◌, ◌++◌, Option, none, some, Text, codes, is_empty, filter,
  any, text_eq, if◌then◌else◌, ltb, ◌==◌, to_lower, Result, ok, err,
}
use offveil.Ruleset.Hosts.{unique_hosts, normalize_host, covers, member}
use offveil.Ruleset.Document.{Document, Package, CanaryGroup, StrategySpec, RouteRule, min_version}

-- CanariesOfKind.
unfoldable pub canaries_of_kind : Document → Text → List CanaryGroup
canaries_of_kind d kind = filter (λ g. text_eq g.kind kind) d.canaries

-- StrategiesFor.
unfoldable pub strategies_for : Document → Text → List StrategySpec
strategies_for d goos = filter (λ s. is_empty s.platform || text_eq s.platform goos) d.strategies

unfoldable pub enabled_packages : Document → List Package
enabled_packages d = filter (λ p. p.default_enabled) d.packages

-- The hosts of the rules on one path, in order.
unfoldable pub rule_hosts : Text → List RouteRule → List Text
rule_hosts path [] = []
rule_hosts path (r ∷ rs) =
    let rest = rule_hosts path rs in
    if text_eq r.path path then r.domains ++ (r.domain_suffix ++ rest) else rest

-- ExcludeSuffixes.
unfoldable pub exclude_suffixes : Document → List Text
exclude_suffixes d = unique_hosts (d.exclude ++ rule_hosts (codes "direct") d.network.routes)

-- RouteHosts.
unfoldable pub route_hosts : Package → List Text
route_hosts p = unique_hosts (p.domains ++ p.domain_suffix)

unfoldable pub package_hosts : Text → List Package → List Text
package_hosts path [] = []
package_hosts path (p ∷ ps) =
    let rest = package_hosts path ps in
    if text_eq p.path_force path then route_hosts p ++ rest else rest

-- RouteDomains.
unfoldable pub route_domains : Document → Text → List Text
route_domains d path =
    unique_hosts (rule_hosts path d.network.routes ++ package_hosts path (enabled_packages d))

unfoldable pub tunnel_domains : Document → List Text
tunnel_domains d = route_domains d (codes "tunnel")

unfoldable pub direct_domains : Document → List Text
direct_domains d = route_domains d (codes "direct")

unfoldable pub protected_domains : Document → List Text
protected_domains d =
    unique_hosts (route_domains d (codes "desync") ++ route_domains d (codes "tunnel"))

abbrev pub default_control_hosts : List Text
default_control_hosts =
    codes "www.cloudflare.com" ∷ codes "www.microsoft.com" ∷ codes "example.com" ∷ []

-- ProbeHosts.
unfoldable pub probe_hosts : Document → List Text
probe_hosts d =
    if is_empty d.network.control_hosts
    then default_control_hosts
    else unique_hosts d.network.control_hosts

unfoldable pub resolve_packages : List Package → List Text
resolve_packages [] = []
resolve_packages (p ∷ ps) =
    let rest = resolve_packages ps in
    if text_eq p.path_force (codes "direct")
    then rest
    else (if is_empty p.resolve_hosts then p.domains else p.resolve_hosts) ++ rest

-- ResolveHosts.
unfoldable pub resolve_hosts : Document → List Text
resolve_hosts d = unique_hosts (probe_hosts d ++ resolve_packages (enabled_packages d))

-- packageCovers.
unfoldable pub package_covers : Package → Text → Bool
package_covers p host =
    not (is_empty host)
    && (any (λ domain. text_eq host (normalize_host domain)) p.domains
        || any (λ suffix. covers host (normalize_host suffix)) p.domain_suffix)

unfoldable pub first_cover : Text → List Package → Option Package
first_cover host [] = none
first_cover host (p ∷ ps) =
    let rest = first_cover host ps in
    if not (text_eq p.path_force (codes "direct")) && package_covers p host then some p else rest

-- MatchPackage.
unfoldable pub match_package : Document → Text → Option Package
match_package d raw =
    let host = normalize_host raw in
    if is_empty host then none else first_cover host (enabled_packages d)

pub record Suggestion : Type 0 where
  pub package_id : Text
  pub host : Text
  pub reason : Text

-- ExpandForHost.
unfoldable pub expand_for_host : Document → Text → List Text → List Suggestion
expand_for_host d observed already =
    let host = normalize_host observed in
    let found : List Suggestion = elim (match_package d host) [
      | none ↦ []
      | some p ↦ record { package_id = p.id; host = host; reason = codes "dns_observed" } ∷ []
    ] in
    if member host already then [] else found

-- IsCanary: EqualFold with an ASCII word.
unfoldable pub is_canary : Package → Bool
unfolding to_lower
is_canary p = text_eq (to_lower p.kind) (codes "canary")

pub record TargetSeed : Type 0 where
  pub id : Text
  pub label : Text

unfoldable pub seeds_of : List Package → List TargetSeed
unfolding is_canary
seeds_of [] = []
seeds_of (p ∷ ps) =
    let rest = seeds_of ps in
    let label = if is_empty p.label then p.id else p.label in
    if text_eq p.path_force (codes "direct") || is_canary p
    then rest
    else record { id = p.id; label = label } ∷ rest

-- TargetSeeds.
unfoldable pub target_seeds : Document → List TargetSeed
target_seeds d = seeds_of (enabled_packages d)

-- PackageIDForHost.
unfoldable pub package_id_for_host : Document → Text → Text
package_id_for_host d host = elim (match_package d host) [ none ↦ [] | some p ↦ p.id ]

-- The update channel. Hours and versions are not negative here; ParseChannel replaces a negative
-- one the way it replaces 0.
pub record Channel : Type 0 where
  pub base_url : Text
  pub ruleset_file : Text
  pub signature_file : Text
  pub public_key_hex : Text
  pub update_interval_hours : ℕ
  pub min_ruleset_version : ℕ

pub data ChannelError : Type 0 where
  bad_channel_json incomplete : ChannelError

complete : Channel → Result ChannelError Channel
complete ch =
    let interval : ℕ = if ch.update_interval_hours == 0 then 24 else ch.update_interval_hours in
    let oldest : ℕ =
      if ltb ch.min_ruleset_version min_version then min_version else ch.min_ruleset_version in
    if is_empty ch.base_url
      || is_empty ch.ruleset_file
      || is_empty ch.signature_file
      || is_empty ch.public_key_hex
    then err incomplete
    else ok (record ch { update_interval_hours = interval; min_ruleset_version = oldest })

-- ParseChannel over a decoder.
unfoldable pub parse_channel : (Text → Option Channel) → Text → Result ChannelError Channel
unfolding complete
parse_channel unmarshal raw = elim (unmarshal raw) [
  | none ↦ err bad_channel_json
  | some ch ↦ complete ch
]
