-- ===== src/Tunnel/Selective.antt =====
-- buildSelectiveConfig (selective_config.go), with what it calls in config.go and network_config.go.
pub mod Rules
pub mod Routing
pub mod Proxied
pub mod Built
pub mod Checks
pub mod Sample
mod Tests
use offveil.Prelude.{
  ℕ, Bool, true, false, not, ◌&&◌, ◌||◌, Option, none, some, List, [], ◌∷◌, ◌++◌, Text, codes,
  is_empty, any, leb, ltb, ◌==◌, if◌then◌else◌, contains, text_eq, to_lower, Result, ok, err, ◌>>=◌,
  require, ◌>>◌,
}
use offveil.Netip.{Addr}
use offveil.Netip.V6.{parse_addr}
use offveil.Netip.Prefix.{Prefix, parse_prefix, masked, single, is4, is_loopback, unmap}
use offveil.Tunnel.Types.{
  System, windows, darwin, other_system, ProviderId, provider_warp, provider_reality,
  provider_desync, WarpProfile, RealityCredentials, DnsAddress, standalone, malformed_dns, core_dns,
  Controller, no_controller, malformed_controller, controller_at, BuildParams, Tag, direct, desync,
  tunnel, selector, TunInbound, Local, as_given, one_address, Outbound, direct_out, socks_out,
  selector_out, vless_out, Endpoint, DnsServer, bootstrap_https, core_stub, Config, SingBoxBuild,
  BuildError, egress_is_tun, invalid_tun_address, core_dns_not_loopback, warp_required,
  reality_required, invalid_wireguard_address, unsupported_provider, controller_not_loopback,
}
use offveil.Tunnel.Addresses.{endpoint_host_of, selective_exclusions, split_default_cidrs}
use offveil.Tunnel.Selective.Rules.{is_remote, selective_rules, selectors}

abbrev text_or : Text → Text → Text
text_or d s = if is_empty s then d else s

abbrev port_or : ℕ → ℕ → ℕ
port_or d n = if n == 0 then d else n

abbrev default_tun_mtu : System → ℕ
default_tun_mtu darwin = 4064
default_tun_mtu _ = 9000

abbrev tun_interface_name : System → Text → Text
tun_interface_name darwin name = []
tun_interface_name _ name = text_or (codes "offveil") name

abbrev tun_stack : System → Text
tun_stack windows = codes "mixed"
tun_stack darwin = codes "gvisor"
tun_stack other_system = codes "system"

-- Whether both texts are equal under case folding.
unfoldable pub equal_fold : Text → Text → Bool
unfolding text_eq to_lower
equal_fold s t = text_eq (to_lower s) (to_lower t)

abbrev pub tun_name : BuildParams → Text
tun_name p = text_or (codes "offveil") p.tun_interface

abbrev pub tun_address_of : BuildParams → Text
tun_address_of p = text_or (codes "10.87.0.1/30") p.tun_address

abbrev pub ipv4_prefix : Option Prefix → Result BuildError Prefix
ipv4_prefix none = err invalid_tun_address
ipv4_prefix (some q) = if is4 q.addr then ok q else err invalid_tun_address

-- The checked prefix of the adapter, if there is one.
unfoldable pub tun_prefix : BuildParams → Result BuildError (Option Prefix)
unfolding equal_fold parse_prefix
tun_prefix p =
    if not p.enable_tun
    then ok none
    else if equal_fold (tun_name p) p.egress_interface
    then err egress_is_tun
    else (ipv4_prefix (parse_prefix (tun_address_of p)) >>= λ q. ok (some q))

abbrev tun_inbound_of : System → BuildParams → Option Prefix → Option TunInbound
tun_inbound_of system p none = none
tun_inbound_of system p (some q) = some (record {
  interface_name = tun_interface_name system (tun_name p);
  address = tun_address_of p;
  mtu = port_or (default_tun_mtu system) p.tun_mtu;
  route_address = split_default_cidrs;
  route_exclude_address = selective_exclusions p;
  stack = tun_stack system;
})

abbrev pub valid_port : ℕ → Bool
valid_port n = ltb 0 n && leb n 65535

abbrev pub stub_at : ℕ → Option Addr → Result BuildError DnsServer
stub_at port none = err core_dns_not_loopback
stub_at port (some a) =
    if is_loopback (unmap a) && valid_port port
    then ok (core_stub a port)
    else err core_dns_not_loopback

-- The server that the gateway asks for names.
unfoldable pub dns_server_of : BuildParams → DnsAddress → Result BuildError DnsServer
unfolding parse_addr
dns_server_of p standalone =
    ok (bootstrap_https (if is_empty p.egress_interface then none else some direct))
dns_server_of p malformed_dns = err core_dns_not_loopback
dns_server_of p (core_dns host port) = stub_at port (parse_addr host)

abbrev is_desync_tag : Tag → Bool
is_desync_tag desync = true
is_desync_tag _ = false

abbrev is_desync_out : Outbound → Bool
is_desync_out (direct_out i) = false
is_desync_out (socks_out host port) = true
is_desync_out (selector_out tag choices default) = is_desync_tag tag
is_desync_out (vless_out server port i) = false

-- prependDesyncOutbound.
unfoldable pub prepend_desync : BuildParams → List Outbound → List Outbound
prepend_desync p outbounds =
    if any is_desync_out outbounds
    then outbounds
    else socks_out (text_or (codes "127.0.0.1") p.desync_socks_host)
        (port_or 18080 p.desync_socks_port)
      ∷ outbounds

abbrev pub local_of : Option Addr → Result BuildError Local
local_of none = err invalid_wireguard_address
local_of (some a) = ok (one_address (single a))

abbrev pub local_address : Text → Result BuildError Local
local_address s = if contains b'/' s then ok (as_given s) else local_of (parse_addr s)

abbrev pub local_addresses : List Text → Result BuildError (List Local)
local_addresses [] = ok []
local_addresses (s ∷ ss) =
    if is_empty s
    then local_addresses ss
    else (local_address s >>= λ a. local_addresses ss >>= λ rest. ok (a ∷ rest))

abbrev endpoint_text : WarpProfile → Text
endpoint_text w = if is_empty w.endpoint_ipv4 then w.endpoint_host else w.endpoint_ipv4

-- The endpoint and the outbound that a remote provider adds.
abbrev pub Remote : Type 0
Remote = List Endpoint × List Outbound

abbrev pub warp_endpoint : BuildParams → Option WarpProfile → Result BuildError Remote
warp_endpoint p none = err warp_required
warp_endpoint p (some w) = local_addresses (w.address_ipv4 ∷ w.address_ipv6 ∷ []) >>= λ addresses.
    ok (
      record {
        peer_host = endpoint_host_of (endpoint_text w);
        addresses = addresses;
        bind_interface = p.egress_interface;
      }
          ∷ [],
      [],
    )

abbrev pub reality_outbound : BuildParams → Option RealityCredentials → Result BuildError Remote
reality_outbound p none = err reality_required
reality_outbound p (some r) = ok ([], vless_out r.server r.server_port p.egress_interface ∷ [])

abbrev pub provider_part : BuildParams → ProviderId → Result BuildError Remote
provider_part p provider_warp = warp_endpoint p p.warp
provider_part p provider_reality = reality_outbound p p.reality
provider_part p provider_desync = err unsupported_provider

-- appendNetworkProvider.
unfoldable pub network_provider : BuildParams → Result BuildError Remote
unfolding parse_addr endpoint_host_of contains
network_provider p = provider_part p p.provider

abbrev pub control : Text → Controller → Result BuildError (Option (Addr × Text))
control secret no_controller = ok none
control secret malformed_controller = err controller_not_loopback
control secret (controller_at a) =
    if is_loopback (unmap a) && not (is_empty secret)
    then ok (some (a, secret))
    else err controller_not_loopback

-- The control of the selectors.
unfoldable pub selector_control : BuildParams → Result BuildError (Option (Addr × Text))
selector_control p = control p.clash_secret p.clash_controller

abbrev pub remote_part : BuildParams → Result BuildError Remote
remote_part p = if is_remote p.provider then network_provider p else ok ([], [])

-- buildSelectiveConfig.
unfoldable pub build_selective_config : System → BuildParams → Result BuildError SingBoxBuild
unfolding tun_prefix dns_server_of prepend_desync network_provider selector_control selective_rules
    selectors
build_selective_config system p = tun_prefix p >>= λ tun.
    dns_server_of p p.dns_address >>= λ server. remote_part p >>= λ remote.
    selector_control p >>= λ clash. ok (record {
      provider = if is_remote p.provider then p.provider else provider_desync;
      config = record {
        listen_ip = text_or (codes "127.0.0.1") p.listen_ip;
        listen_port = port_or 18081 p.listen_port;
        tun_inbound = tun_inbound_of system p tun;
        rules = selective_rules p tun;
        final = direct;
        outbounds = prepend_desync p (direct_out p.egress_interface ∷ selectors p) ++ remote.1;
        endpoints = remote.0;
        dns_server = server;
        clash = clash;
      };
    })
