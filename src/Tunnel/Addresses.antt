-- ===== src/Tunnel/Addresses.antt =====
-- Endpoints and prefixes that stay outside the gateway: network_config.go, selective_config.go and
-- splitHostPort of config.go.
use offveil.Prelude.{
  Bool, not, ◌&&◌, Option, none, some, List, [], ◌∷◌, ◌++◌, Text, codes, is_empty, any,
  if◌then◌else◌, filter, trim_space, ◌≡◌, refl,
}
use offveil.Netip.{Addr}
use offveil.Netip.V6.{parse_addr}
use offveil.Netip.Prefix.{Prefix, parse_prefix, masked, single, prefix_eq, is4}
use offveil.Netip.HostPort.{split_host_port, cut_last, is_int}
use offveil.Capture.{default_exclude_prefixes}
use offveil.Tunnel.Types.{WarpProfile, RealityCredentials, BuildParams}

-- The host part of an endpoint that SplitHostPort refuses.
abbrev host_before_port : Text → Text × Text × Bool → Text
host_before_port whole (before, after, found) =
    if found && not (is_empty before) && is_int after then before else whole

abbrev host_or : Text → Option (Text × Text) → Text
host_or whole none = host_before_port whole (cut_last b':' whole)
host_or whole (some (host, port)) = host

-- The host that splitHostPort returns.
unfoldable pub endpoint_host_of : Text → Text
unfolding split_host_port cut_last is_int trim_space
endpoint_host_of s =
    let t = trim_space s in
    if is_empty t then codes "engage.cloudflareclient.com" else host_or t (split_host_port t)

abbrev warp_endpoints : Option WarpProfile → List Text
warp_endpoints none = []
warp_endpoints (some w) = w.endpoint_host ∷ w.endpoint_ipv4 ∷ []

abbrev reality_endpoints : Option RealityCredentials → List Text
reality_endpoints none = []
reality_endpoints (some r) = r.server ∷ []

abbrev bare_host : Text → Option (Text × Text) → Text
bare_host endpoint none = endpoint
bare_host endpoint (some (host, port)) = host

abbrev add_single : Option Addr → List Prefix → List Prefix
add_single none ps = ps
add_single (some a) ps = single a ∷ ps

abbrev peers_of : List Text → List Prefix
peers_of [] = []
peers_of (e ∷ es) = add_single (parse_addr (bare_host e (split_host_port e))) (peers_of es)

-- networkPeerExclusions.
unfoldable pub network_peer_exclusions :
    Option WarpProfile → Option RealityCredentials → List Prefix
unfolding parse_addr split_host_port
network_peer_exclusions warp reality = peers_of (warp_endpoints warp ++ reality_endpoints reality)

abbrev add_parsed : Option Prefix → List Prefix → List Prefix
add_parsed none ps = ps
add_parsed (some p) ps = p ∷ ps

-- The texts that ParsePrefix accepts.
abbrev pub parsed_only : List Text → List Prefix
parsed_only [] = []
parsed_only (s ∷ ss) = add_parsed (parse_prefix s) (parsed_only ss)

-- The masked forms, each once, in the order in which they come first.
unfoldable pub distinct_from : List Prefix → List Prefix → List Prefix
unfolding masked
distinct_from seen [] = []
distinct_from seen (p ∷ ps) =
    let again = any (prefix_eq (masked p)) seen in
    let rest = distinct_from (if again then seen else masked p ∷ seen) ps in
    if again then rest else masked p ∷ rest

-- networkRouteExclusions.
unfoldable pub network_route_exclusions : BuildParams → List Prefix
unfolding distinct_from network_peer_exclusions
network_route_exclusions p = distinct_from [] (
    default_exclude_prefixes
    ++ parsed_only (codes "100.64.0.0/10" ∷ p.exclude_cidrs)
    ++ network_peer_exclusions p.warp p.reality)

-- selectiveExclusions.
unfoldable pub selective_exclusions : BuildParams → List Prefix
unfolding network_route_exclusions
selective_exclusions p = filter (λ e. is4 e.addr) (network_route_exclusions p)

-- SplitDefaultCIDRs, also SelectiveRouteCIDRs.
abbrev pub split_default_cidrs : List Text
split_default_cidrs = codes "0.0.0.0/1" ∷ codes "128.0.0.0/1" ∷ []

host_of_endpoint : endpoint_host_of (codes " 162.159.192.1:0 ") ≡ codes "162.159.192.1"
unfolding endpoint_host_of
host_of_endpoint = refl

host_of_v6 :
    endpoint_host_of (codes "[2606:4700:d0::a29f:c001]:2408") ≡ codes "2606:4700:d0::a29f:c001"
unfolding endpoint_host_of
host_of_v6 = refl
