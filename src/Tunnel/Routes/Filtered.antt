-- ===== src/Tunnel/Routes/Filtered.antt =====
-- What is routed.
use offveil.Prelude.{
  ◌≡◌, inl, inr, not-true, true, false, not, ◌&&◌, Option, none, some, List, [], ◌∷◌, Text, any,
  Bool-cases, both_hold,
}
use offveil.Netip.Prefix.{Prefix, prefix_eq}
use offveil.Tunnel.Types.{WarpProfile}
use offveil.Tunnel.Routes

-- Each is taken, and none of them is one of `seen` or comes twice.
abbrev pub Taken : List Prefix → List Prefix → List Prefix → Type 0
Taken exclude seen [] = Unit {0}
Taken exclude seen (p ∷ ps) =
    (Routes.is_routed_cidr exclude p ≡ true)
    × (any (prefix_eq p) seen ≡ false)
    × Taken exclude (p ∷ seen) ps

step-Taken :
    (exclude seen : List Prefix) (o : Option Prefix) (rest : (s : List Prefix) → List Prefix)
    → ((s : List Prefix) → Taken exclude s (rest s))
    → Taken exclude seen (
        Routes.add_route
          (Routes.routed_next exclude seen o)
          o
          (rest (Routes.add_route (Routes.routed_next exclude seen o) o seen)))
step-Taken exclude seen none rest t = t seen
step-Taken exclude seen (some p) rest t =
    elim (Bool-cases (Routes.is_routed_cidr exclude p && not (any (prefix_eq p) seen))) [
      | inl e ↦ rw e (
          let (routed, new) =
            both_hold (Routes.is_routed_cidr exclude p) (not (any (prefix_eq p) seen)) e in
          (routed, not-true (any (prefix_eq p) seen) new, t (p ∷ seen)))
      | inr e ↦ rw e (t seen)
    ]

routes_from-Taken :
    (exclude seen : List Prefix) (raws : List Text)
    → Taken exclude seen (Routes.routes_from exclude seen raws)
unfolding Routes.routes_from
routes_from-Taken exclude seen [] = _
routes_from-Taken exclude seen (raw ∷ raws) =
    step-Taken exclude seen (Routes.normalize_cidr raw) (λ s. Routes.routes_from exclude s raws)
      (λ s. routes_from-Taken exclude s raws)

-- Every prefix that FilterRouteCIDRs keeps passes the tests against the exclusions of the tunnel, and none is kept
-- twice.
pub filter_route_cidrs-Taken :
    (cidrs extra : List Text) (warp : Option WarpProfile) (tun_addr : Text)
    → Taken
        (Routes.excluded_routes extra warp tun_addr)
        []
        (Routes.filter_route_cidrs cidrs extra warp tun_addr)
unfolding Routes.filter_route_cidrs
filter_route_cidrs-Taken cidrs extra warp tun_addr =
    routes_from-Taken (Routes.excluded_routes extra warp tun_addr) [] cidrs
