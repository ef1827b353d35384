-- ===== src/Tunnel/Routes.antt =====
-- FilterRouteCIDRs of config.go: which prefixes are routed into a tunnel of its own. Prefixes are kept parsed.
pub mod Filtered
mod Tests
use offveil.Prelude.{
  ℕ, Bool, true, false, not, ◌&&◌, ◌||◌, Option, none, some, List, [], ◌∷◌, ◌++◌, Text, codes,
  is_empty, any, if◌then◌else◌, ◌==◌, trim_space, contains,
}
use offveil.Netip.{Addr, v4}
use offveil.Netip.V6.{parse_addr}
use offveil.Netip.Prefix.{
  Prefix, parse_prefix, masked, prefix_eq, addr_eq, is4, is_valid, is_private, is_loopback,
  is_link_local, is_multicast, is_unspecified,
}
use offveil.Tunnel.Types.{WarpProfile}
use offveil.Tunnel.Addresses.{endpoint_host_of}

-- PrefixFrom with 32 bits.
abbrev pub host_route : Addr → Prefix
host_route a = record { addr = a; bits = 32 }

abbrev of_addr : Option Addr → Option Prefix
of_addr none = none
of_addr (some a) = some (host_route a)

abbrev of_prefix : Option Prefix → Option Prefix
of_prefix none = none
of_prefix (some p) = some (masked p)

-- normalizeCIDR.
unfoldable pub normalize_cidr : Text → Option Prefix
unfolding trim_space contains parse_addr parse_prefix masked
normalize_cidr s =
    let t = trim_space s in
    if is_empty t
    then none
    else if not (contains b'/' t)
    then of_addr (parse_addr t)
    else of_prefix (parse_prefix t)

-- isSplitDefault.
unfoldable pub is_split_default : Prefix → Bool
unfolding masked
is_split_default p =
    (is_valid p && is4 p.addr && (p.bits == 1))
    && (is_unspecified (masked p).addr || addr_eq (masked p).addr (v4 2147483648))

abbrev pub public_resolvers : List Prefix
public_resolvers =
    host_route (v4 16843009)
    ∷ host_route (v4 16777217)
    ∷ host_route (v4 134744072)
    ∷ host_route (v4 134743044)
    ∷ host_route (v4 151587081)
    ∷ []

abbrev cons_route : Option Prefix → List Prefix → List Prefix
cons_route none ps = ps
cons_route (some p) ps = p ∷ ps

abbrev normalized_all : List Text → List Prefix
normalized_all [] = []
normalized_all (s ∷ ss) = cons_route (normalize_cidr s) (normalized_all ss)

abbrev tun_routes : Option Prefix → List Prefix
tun_routes none = []
tun_routes (some p) = masked p ∷ host_route p.addr ∷ []

abbrev ipv4_route : Option Addr → List Prefix
ipv4_route none = []
ipv4_route (some a) = if is4 a then host_route a ∷ [] else []

abbrev warp_routes : Option WarpProfile → List Prefix
warp_routes none = []
warp_routes (some w) =
    ipv4_route (parse_addr (endpoint_host_of w.endpoint_ipv4))
    ++ ipv4_route (parse_addr (endpoint_host_of w.endpoint_host))

-- The map `exclude` of FilterRouteCIDRs.
unfoldable pub excluded_routes : List Text → Option WarpProfile → Text → List Prefix
unfolding normalize_cidr masked parse_prefix parse_addr endpoint_host_of
excluded_routes extra warp tun_addr =
    public_resolvers
    ++ (normalized_all extra
        ++ ((if is_empty tun_addr then [] else tun_routes (parse_prefix tun_addr))
            ++ warp_routes warp))

abbrev pub is_local : Addr → Bool
is_local a = is_private a || is_loopback a || is_link_local a || is_multicast a

-- The tests of the loop of FilterRouteCIDRs.
unfoldable pub is_routed_cidr : List Prefix → Prefix → Bool
unfolding is_split_default
is_routed_cidr exclude p =
    (is4 p.addr && not (p.bits == 0))
    && (is_split_default p
        || not (
            is_local p.addr
            || any (prefix_eq p) exclude
            || any (prefix_eq (host_route p.addr)) exclude))

-- One round of the loop; `seen` are the prefixes that are there already.
abbrev pub routed_next : List Prefix → List Prefix → Option Prefix → Bool
routed_next exclude seen none = false
routed_next exclude seen (some p) = is_routed_cidr exclude p && not (any (prefix_eq p) seen)

abbrev pub add_route : Bool → Option Prefix → List Prefix → List Prefix
add_route true (some p) ps = p ∷ ps
add_route _ _ ps = ps

-- The loop of FilterRouteCIDRs.
unfoldable pub routes_from : List Prefix → List Prefix → List Text → List Prefix
unfolding normalize_cidr is_routed_cidr
routes_from exclude seen [] = []
routes_from exclude seen (raw ∷ raws) =
    let p = normalize_cidr raw in
    let taken = routed_next exclude seen p in
    add_route taken p (routes_from exclude (add_route taken p seen) raws)

-- FilterRouteCIDRs.
unfoldable pub filter_route_cidrs : List Text → List Text → Option WarpProfile → Text → List Prefix
unfolding excluded_routes routes_from
filter_route_cidrs cidrs extra warp tun_addr =
    routes_from (excluded_routes extra warp tun_addr) [] cidrs
