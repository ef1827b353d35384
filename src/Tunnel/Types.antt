-- ===== src/Tunnel/Types.antt =====
-- The data of the gateway's configuration: config.go, types.go and selective_config.go.
-- A configuration is kept as data in place of its JSON text; prefixes are kept parsed.
use offveil.Prelude.{ℕ, Bool, Option, List, Text, codes}
use offveil.Netip.{Addr}
use offveil.Netip.Prefix.{Prefix}

-- runtime.GOOS, as far as it decides anything here.
pub data System : Type 0 where
  windows darwin other_system : System

pub data ProviderId : Type 0 where
  provider_warp provider_reality provider_desync : ProviderId

abbrev pub path_desync : Text
path_desync = codes "desync"

abbrev pub path_tunnel : Text
path_tunnel = codes "tunnel"

pub record GroupRoute : Type 0 where
  pub id : Text
  pub domain_suffix : List Text

-- WARPProfile without its keys.
pub record WarpProfile : Type 0 where
  pub address_ipv4 : Text
  pub address_ipv6 : Text
  pub endpoint_host : Text
  pub endpoint_ipv4 : Text

-- RealityCredentials without its keys.
pub record RealityCredentials : Type 0 where
  pub server : Text
  pub server_port : ℕ

-- What SplitHostPort and Sscan read of the resolver's address.
pub data DnsAddress : Type 0 where
  standalone malformed_dns : DnsAddress
  core_dns : Text → ℕ → DnsAddress

-- What ParseAddrPort reads of the controller's address.
pub data Controller : Type 0 where
  no_controller malformed_controller : Controller
  controller_at : Addr → Controller

-- The fields of BuildParams that the selective gateway reads.
pub record BuildParams : Type 0 where
  pub provider : ProviderId
  pub warp : Option WarpProfile
  pub reality : Option RealityCredentials
  pub listen_ip : Text
  pub listen_port : ℕ
  pub enable_tun : Bool
  pub tun_interface : Text
  pub tun_address : Text
  pub tun_mtu : ℕ
  pub exclude_cidrs : List Text
  pub egress_interface : Text
  pub desync_socks_host : Text
  pub desync_socks_port : ℕ
  pub dns_address : DnsAddress
  pub groups : List GroupRoute
  pub group_paths : List (Text × Text)
  pub exclude_suffixes : List Text
  pub quic_reject_suffixes : List Text
  pub clash_controller : Controller
  pub clash_secret : Text

pub data Network : Type 0 where
  tcp udp : Network

pub data Protocol : Type 0 where
  dns quic : Protocol

-- The tag of an outbound; that of a selector is `sel-<group>-<network>`.
pub data Tag : Type 0 where
  direct desync tunnel : Tag
  selector : Text → Network → Tag

pub data Action : Type 0 where
  sniff hijack_dns reject_drop : Action
  route_to : Tag → Action

-- What a rule of the gateway asks of a connection.
pub data Condition : Type 0 where
  protocol_is : Protocol → Condition
  in_cidr : List Prefix → Condition
  ip_is_private : Condition
  in_suffix : List Text → Condition
  network_is : Network → Condition
  ipv4_only : Condition
  port_in : List ℕ → Condition

pub record Rule : Type 0 where
  pub conditions : List Condition
  pub action : Action

pub record TunInbound : Type 0 where
  pub interface_name : Text
  pub address : Text
  pub mtu : ℕ
  pub route_address : List Text
  pub route_exclude_address : List Prefix
  pub stack : Text

-- An address of the tunnel's interface: as the profile has it, or that of one parsed address.
pub data Local : Type 0 where
  as_given : Text → Local
  one_address : Prefix → Local

pub data Outbound : Type 0 where
  direct_out : Text → Outbound
  socks_out : Text → ℕ → Outbound
  selector_out : Tag → List Tag → Tag → Outbound
  vless_out : Text → ℕ → Text → Outbound

-- A wireguard endpoint, by the host of its peer.
pub record Endpoint : Type 0 where
  pub peer_host : Text
  pub addresses : List Local
  pub bind_interface : Text

pub data DnsServer : Type 0 where
  bootstrap_https : Option Tag → DnsServer
  core_stub : Addr → ℕ → DnsServer

pub record Config : Type 0 where
  pub listen_ip : Text
  pub listen_port : ℕ
  pub tun_inbound : Option TunInbound
  pub rules : List Rule
  pub final : Tag
  pub outbounds : List Outbound
  pub endpoints : List Endpoint
  pub dns_server : DnsServer
  pub clash : Option (Addr × Text)

pub record SingBoxBuild : Type 0 where
  pub provider : ProviderId
  pub config : Config

pub data BuildError : Type 0 where
  egress_is_tun invalid_tun_address core_dns_not_loopback : BuildError
  warp_required reality_required invalid_wireguard_address unsupported_provider : BuildError
  controller_not_loopback : BuildError
