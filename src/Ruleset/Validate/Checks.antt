-- ===== src/Ruleset/Validate/Checks.antt =====
-- What each check of ParseDocument (offveil-core/internal/ruleset/types.go) lets through.
use offveil.Prelude.{
  ◌+◌, ◌≤◌, ◌<◌, ◌≡◌, refl, true, false, not, List, [], ◌∷◌, ◌++◌, Text, codes, length, ltb, all,
  text_eq_iff, ok, require, arith, ap, subst, sym, suc, In, All, ◌⊎◌, inl, inr, >>=-eq-ok,
}
use offveil.Ruleset.Hosts.{unique_hosts, valid_hostname, match_suffix, member}
use offveil.Ruleset.Sets.{Distinct, In→member}
use offveil.Ruleset.Document.{
  CanaryGroup, StrategySpec, RouteRule, Error, bad_route_host, bad_canary_host, many_canaries,
  many_strategies, canary_persistent, canary_crisis, max_canary_groups, max_canary_hosts,
  max_canary_suffixes, max_strategies, max_strategy_args,
}
use offveil.Ruleset.Validate.{
  check_hosts, check_route, check_routes, check_probes, check_canary, check_canaries,
  valid_group_id, validate_canaries, valid_arg, strategy_key, check_strategy, check_strategies,
  validate_strategies, is_poison_ip, check_poison,
}

-- The hosts are valid names, each in the list once.
abbrev pub AreHosts : List Text → Type 0
AreHosts hosts = all valid_hostname hosts ≡ true

pub check_hosts-AreHosts :
    (e : Text → Error) (hosts : List Text) → check_hosts e hosts ≡ ok tt → AreHosts hosts
unfolding check_hosts
check_hosts-AreHosts e [] h = refl
check_hosts-AreHosts e (host ∷ hosts) h = ground (arith, check_hosts-AreHosts e hosts)

pub record IsRoute (rule : RouteRule) : Type 0 where
  pub direct : rule.path ≡ codes "direct"
  pub hosts : AreHosts (rule.domains ++ rule.domain_suffix)
  pub filled : 0 < length rule.domains + length rule.domain_suffix

check_route-IsRoute : (rule r : RouteRule) → check_route rule ≡ ok r → IsRoute r
unfolding check_route
check_route-IsRoute rule r h = ground (
  arith,
  check_hosts-AreHosts bad_route_host
      (unique_hosts rule.domains ++ unique_hosts rule.domain_suffix),
  text_eq_iff rule.path (codes "direct"),
)

pub check_routes-IsRoute : (rules rs : List RouteRule) → check_routes rules ≡ ok rs → All IsRoute rs
unfolding check_routes
check_routes-IsRoute [] rs h = ground arith
check_routes-IsRoute (rule ∷ rules) rs h =
    let (r, hr, h2) = >>=-eq-ok (check_route rule) _ h in
    let (rs', hs, h3) = >>=-eq-ok (check_routes rules) _ h2 in
    ground (arith, check_route-IsRoute rule r hr, check_routes-IsRoute rules rs' hs, h3)

check_probes-covered :
    (suffixes hosts : List Text)
    → check_probes suffixes hosts ≡ ok tt
    → all (λ h. match_suffix h suffixes) hosts ≡ true
unfolding check_probes
check_probes-covered suffixes [] h = refl
check_probes-covered suffixes (host ∷ hosts) h = ground (arith, check_probes-covered suffixes hosts)

pub record IsCanary (g : CanaryGroup) : Type 0 where
  pub id_valid : valid_group_id g.id ≡ true
  pub kind_known : (g.kind ≡ canary_persistent) ⊎ (g.kind ≡ canary_crisis)
  pub some_probe : 0 < length g.probe_hosts
  pub few_probes : length g.probe_hosts ≤ max_canary_hosts
  pub some_suffix : 0 < length g.domain_suffix
  pub few_suffixes : length g.domain_suffix ≤ max_canary_suffixes
  pub hosts : AreHosts (g.probe_hosts ++ g.domain_suffix)
  pub covered : all (λ h. match_suffix h g.domain_suffix) g.probe_hosts ≡ true

check_canary-IsCanary :
    (seen : List Text) (group g : CanaryGroup)
    → check_canary seen group ≡ ok g
    → IsCanary g × (g.id ≡ group.id) × (member group.id seen ≡ false)
unfolding check_canary
check_canary-IsCanary seen group g h = ground (
  arith,
  check_hosts-AreHosts bad_canary_host
      (unique_hosts group.probe_hosts ++ unique_hosts group.domain_suffix),
  check_probes-covered (unique_hosts group.domain_suffix) (unique_hosts group.probe_hosts),
  text_eq_iff group.kind canary_persistent,
  text_eq_iff group.kind canary_crisis,
)

-- Texts that a loop meets for the first time, one after the other.
abbrev Unseen : List Text → List Text → Type 0
Unseen seen [] = Unit {0}
Unseen seen (x ∷ xs) = (member x seen ≡ false) × Unseen (x ∷ seen) xs

Unseen-apart : (seen xs : List Text) (y : Text) → Unseen seen xs → In y seen → ¬ (In y xs)
Unseen-apart seen [] y u s m = m
Unseen-apart seen (x ∷ xs) y u s (inl e) = cc (In→member y seen s, ap (λ z. member z seen) e, u.0)
Unseen-apart seen (x ∷ xs) y u s (inr m) = Unseen-apart (x ∷ seen) xs y u.1 (inr s) m

Unseen-Distinct : (seen xs : List Text) → Unseen seen xs → Distinct xs
Unseen-Distinct seen [] u = tt
Unseen-Distinct seen (x ∷ xs) u =
    (λ m. Unseen-apart (x ∷ seen) xs x u.1 (inl refl) m, Unseen-Distinct (x ∷ seen) xs u.1)

abbrev pub ids : List CanaryGroup → List Text
ids [] = []
ids (g ∷ gs) = g.id ∷ ids gs

check_canaries-IsCanary :
    (seen : List Text) (groups gs : List CanaryGroup)
    → check_canaries seen groups ≡ ok gs
    → All IsCanary gs × Unseen seen (ids gs) × (length gs ≡ length groups)
unfolding check_canaries
check_canaries-IsCanary seen [] gs h = ground arith
check_canaries-IsCanary seen (group ∷ groups) gs h =
    let (g, hg, h2) = >>=-eq-ok (check_canary seen group) _ h in
    let (rest, hr, h3) = >>=-eq-ok (check_canaries (group.id ∷ seen) groups) _ h2 in
    let (good, same, new) = check_canary-IsCanary seen group g hg in
    let (goods, unseen, len) = check_canaries-IsCanary (group.id ∷ seen) groups rest hr in
    let e : gs ≡ g ∷ rest = ground arith in
    rw e (
      (good, goods),
      (
        subst (λ x. member x seen ≡ false) (sym same) new,
        subst (λ x. Unseen (x ∷ seen) (ids rest)) (sym same) unseen,
      ),
      ap suc len,
    )

abbrev pub keys : List StrategySpec → List Text
keys [] = []
keys (s ∷ ss) = strategy_key s ∷ keys ss

pub record IsStrategy (s : StrategySpec) : Type 0 where
  pub some_id : 0 < length s.id
  pub short_id : length s.id ≤ 64
  pub platform_known :
      (s.platform ≡ []) ⊎ (s.platform ≡ codes "windows") ⊎ (s.platform ≡ codes "darwin")
  pub some_args : 0 < length s.args
  pub few_args : length s.args ≤ max_strategy_args
  pub args_valid : all valid_arg s.args ≡ true

check_strategy-IsStrategy :
    (seen : List Text) (s : StrategySpec)
    → check_strategy seen s ≡ ok tt
    → IsStrategy s × (member (strategy_key s) seen ≡ false)
unfolding check_strategy
check_strategy-IsStrategy seen s h =
    ground
      (arith, text_eq_iff s.platform (codes "windows"), text_eq_iff s.platform (codes "darwin"))

check_strategies-IsStrategy :
    (seen : List Text) (specs : List StrategySpec)
    → check_strategies seen specs ≡ ok tt
    → All IsStrategy specs × Unseen seen (keys specs)
unfolding check_strategies
check_strategies-IsStrategy seen [] h = (tt, tt)
check_strategies-IsStrategy seen (s ∷ specs) h =
    let (u, hs, h2) = >>=-eq-ok (check_strategy seen s) _ h in
    let (good, new) = check_strategy-IsStrategy seen s hs in
    let (goods, unseen) = check_strategies-IsStrategy (strategy_key s ∷ seen) specs h2 in
    ((good, goods), (new, unseen))

pub check_poison-all : (raws : List Text) → check_poison raws ≡ ok tt → all is_poison_ip raws ≡ true
unfolding check_poison
check_poison-all [] h = refl
check_poison-all (raw ∷ raws) h = ground (arith, check_poison-all raws)

pub validate_canaries-IsCanary :
    (groups gs : List CanaryGroup)
    → validate_canaries groups ≡ ok gs
    → All IsCanary gs × Distinct (ids gs) × (length gs ≤ max_canary_groups)
unfolding validate_canaries
validate_canaries-IsCanary groups gs h =
    let (u, hu, h2) =
      >>=-eq-ok (require (not (ltb max_canary_groups (length groups))) many_canaries) _ h in
    let (good, unseen, len) = check_canaries-IsCanary [] groups gs h2 in
    (good, Unseen-Distinct [] (ids gs) unseen, ground (arith, hu, len))

pub validate_strategies-IsStrategy :
    (specs : List StrategySpec)
    → validate_strategies specs ≡ ok tt
    → All IsStrategy specs × Distinct (keys specs) × (length specs ≤ max_strategies)
unfolding validate_strategies
validate_strategies-IsStrategy specs h =
    let (u, hu, h2) =
      >>=-eq-ok (require (not (ltb max_strategies (length specs))) many_strategies) _ h in
    let (good, unseen) = check_strategies-IsStrategy [] specs h2 in
    (good, Unseen-Distinct [] (keys specs) unseen, ground (arith, hu))
