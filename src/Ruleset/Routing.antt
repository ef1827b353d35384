-- ===== src/Ruleset/Routing.antt =====
-- What an accepted document can make the engine do.
use offveil.Prelude.{
  ◌≤◌, ◌≡◌, refl, ap, subst, true, false, List, [], ◌∷◌, none, Text, codes, is_empty, filter,
  text_eq, In, All, inl, inr, arith, length, Bool-cases,
}
use offveil.Ruleset.Hosts.{unique_hosts, unique_from, valid_hostname, member}
use offveil.Ruleset.Canonical.{normalize_host-valid}
use offveil.Ruleset.Sets.{Distinct, member→In}
use offveil.Ruleset.Document.{Document, RouteRule}
use offveil.Ruleset.Validate.Checks.{IsRoute, AreHosts}
use offveil.Ruleset.Validate.Accepted.{IsAccepted}
use offveil.Ruleset.Queries.{
  first_cover, seeds_of, enabled_packages, rule_hosts, route_domains, tunnel_domains,
  protected_domains, probe_hosts, match_package, target_seeds, package_hosts,
}

valid-filled : (h : Text) → valid_hostname h ≡ true → is_empty h ≡ false
unfolding valid_hostname
valid-filled [] v = cc
valid-filled (c ∷ h) v = refl

apart-member : (h : Text) (seen : List Text) → ¬ (In h seen) → member h seen ≡ false
apart-member h seen n = elim (Bool-cases (member h seen)) [
  | inl e ↦ absurd (n (member→In h seen e))
  | inr e ↦ e
]

unique_from-valid :
    (seen hosts : List Text)
    → AreHosts hosts
    → Distinct hosts
    → ((h : Text) → In h hosts → ¬ (In h seen))
    → unique_from seen hosts ≡ hosts
unfolding unique_from
unique_from-valid seen [] v d n = refl
unique_from-valid seen (h ∷ hosts) v d n =
    let ok : valid_hostname h ≡ true = ground arith in
    let rest =
      unique_from-valid (h ∷ seen) hosts (ground arith) d.1
        (λ x m k. elim k [ inl q ↦ d.0 (subst (λ y. In y hosts) q m) | inr q ↦ n x (inr m) q ]) in
    rw (normalize_host-valid h ok)
      (ground (arith, rest, apart-member h seen (n h (inl refl)), valid-filled h ok))

-- Distinct valid hosts are their own set of normal forms.
unique_hosts-valid :
    (hosts : List Text) → AreHosts hosts → Distinct hosts → unique_hosts hosts ≡ hosts
unfolding unique_hosts
unique_hosts-valid hosts v d = unique_from-valid [] hosts v d (λ h m k. k)

direct_only :
    (path : Text) (rules : List RouteRule)
    → text_eq (codes "direct") path ≡ false
    → All IsRoute rules
    → rule_hosts path rules ≡ []
unfolding rule_hosts
direct_only path [] n a = refl
direct_only path (r ∷ rs) n a = ground (arith, direct_only path rs n a.1, a.0.direct)

no_packages : (d : Document) → IsAccepted d → enabled_packages d ≡ []
unfolding enabled_packages
no_packages d a = ap (filter (λ p. p.default_enabled)) a.no_packages

no_route :
    (d : Document)
    → IsAccepted d
    → (path : Text) → text_eq (codes "direct") path ≡ false
    → route_domains d path ≡ []
unfolding route_domains unique_hosts package_hosts
no_route d a path n = rw (direct_only path d.network.routes n a.routes_valid, no_packages d a)

differs_tunnel : text_eq (codes "direct") (codes "tunnel") ≡ false
unfolding text_eq
differs_tunnel = refl

differs_desync : text_eq (codes "direct") (codes "desync") ≡ false
unfolding text_eq
differs_desync = refl

unique_nothing : unique_hosts [] ≡ []
unfolding unique_hosts
unique_nothing = refl

some-filled : (xs : List Text) → 2 ≤ length xs → is_empty xs ≡ false
some-filled [] h = absurd (omega arith)
some-filled (x ∷ xs) h = refl

-- An accepted document never sends a destination to the tunnel or to the helper, names no target of
-- its own, and its probe hosts are exactly its control hosts.
pub accepted_routing :
    (d : Document)
    → IsAccepted d
    → (tunnel_domains d ≡ [])
      × (protected_domains d ≡ [])
      × (target_seeds d ≡ [])
      × ((host : Text) → match_package d host ≡ none)
      × (probe_hosts d ≡ d.network.control_hosts)
unfolding tunnel_domains protected_domains target_seeds match_package first_cover seeds_of
accepted_routing d a = (
  no_route d a (codes "tunnel") differs_tunnel,
  rw (no_route d a (codes "desync") differs_desync, no_route d a (codes "tunnel") differs_tunnel)
      unique_nothing,
  rw (no_packages d a),
  λ host. rw (no_packages d a) (ground arith),
  unfold probe_hosts in
      rw (some-filled d.network.control_hosts a.some_controls)
        (unique_hosts-valid d.network.control_hosts a.controls_valid a.controls_distinct),
)
