-- ===== src/Tunnel/Selective/Sample.antt =====
-- A gateway with one group on the tunnel, and a process that keeps to what Routing asks of it, for the tests.
use offveil.Prelude.{
  ℕ, ◌≡◌, ◌≢◌, refl, Bool, true, false, Option, none, some, List, [], ◌∷◌, Text, codes, all, any,
  ◌==◌, ok, if◌then◌else◌, has_suffix,
}
use offveil.Netip.{Addr, v4}
use offveil.Netip.Prefix.{Prefix, contains_addr, is_private}
use offveil.Tunnel.Types.{
  windows, provider_warp, BuildParams, SingBoxBuild, Tag, direct, Network, tcp, udp, Protocol, dns,
  quic, core_dns, controller_at, Condition, protocol_is, in_cidr, ip_is_private, in_suffix,
  socks_out, direct_out, one_address, core_stub, network_is, ipv4_only, port_in, Rule, Action,
  sniff, hijack_dns, reject_drop, route_to, path_tunnel,
}
use offveil.Tunnel.Addresses.{selective_exclusions, split_default_cidrs}
use offveil.Tunnel.Selective.{build_selective_config}
use offveil.Tunnel.Selective.Rules.{default_of, on_tunnel, selective_rules, selectors}
use offveil.Tunnel.Selective.Routing.{Routing, Verdict, sent, verdict_of}

pub record Conn : Type 0 where
  pub network : Network
  pub protocol : Option Protocol
  pub dest : Addr
  pub host : Text
  pub port : ℕ

abbrev pub same_network : Network → Network → Bool
same_network tcp tcp = true
same_network udp udp = true
same_network _ _ = false

abbrev pub same_protocol : Protocol → Option Protocol → Bool
same_protocol dns (some dns) = true
same_protocol quic (some quic) = true
same_protocol _ _ = false

abbrev pub holds : Condition → Conn → Bool
holds (protocol_is k) c = same_protocol k c.protocol
holds (in_cidr ps) c = any (λ p. contains_addr p c.dest) ps
holds ip_is_private c = is_private c.dest
holds (in_suffix ss) c = any (λ s. has_suffix c.host s) ss
holds (network_is n) c = same_network n c.network
holds ipv4_only c = true
holds (port_in ports) c = any (λ n. n == c.port) ports

abbrev pub settled : Bool → Action → Verdict → Verdict
settled matched sniff later = later
settled matched a later = if matched then verdict_of a else later

abbrev pub decide : List Rule → Tag → Conn → Verdict
decide [] f c = sent f
decide (r ∷ rs) f c = settled (all (λ k. holds k c) r.conditions) r.action (decide rs f c)

pub holds-network : (n : Network) (c : Conn) → holds (network_is n) c ≡ true → c.network ≡ n
holds-network n c h = network_of n c.network h
  where
    network_of : (n m : Network) → same_network n m ≡ true → m ≡ n
    network_of tcp tcp h = refl
    network_of udp udp h = refl
    network_of tcp udp h = cc
    network_of udp tcp h = cc

pub network-holds : (n : Network) → same_network n n ≡ true
network-holds tcp = refl
network-holds udp = refl

pub settled-miss : (a : Action) (later : Verdict) → settled false a later ≡ later
settled-miss sniff later = refl
settled-miss hijack_dns later = refl
settled-miss reject_drop later = refl
settled-miss (route_to t) later = refl

pub settled-hit : (a : Action) (later : Verdict) → a ≢ sniff → settled true a later ≡ verdict_of a
settled-hit sniff later n = absurd (n refl)
settled-hit hijack_dns later n = refl
settled-hit reject_drop later n = refl
settled-hit (route_to t) later n = refl

abbrev pub first_match : Routing Conn
first_match = record {
  network = λ c. c.network;
  holds = holds;
  decide = decide;
  holds-network = holds-network;
  network-holds = λ c. network-holds c.network;
  decide-none = λ f c. refl;
  decide-sniff = λ conditions rs f c. refl;
  decide-miss = λ r rs f c e. rw e (settled-miss r.action (decide rs f c));
  decide-hit = λ r rs f c a e. rw e (settled-hit r.action (decide rs f c) a);
}

abbrev pub params : BuildParams
params = record {
  provider = provider_warp;
  warp = some (record {
    address_ipv4 = codes "172.16.0.2";
    address_ipv6 = [];
    endpoint_host = codes "engage.example:2408";
    endpoint_ipv4 = codes "162.159.192.1:2408";
  });
  reality = none;
  listen_ip = [];
  listen_port = 0;
  enable_tun = true;
  tun_interface = [];
  tun_address = [];
  tun_mtu = 0;
  exclude_cidrs = codes "203.0.113.0/24" ∷ [];
  egress_interface = codes "Ethernet";
  desync_socks_host = [];
  desync_socks_port = 0;
  dns_address = core_dns (codes "127.0.0.1") 53;
  groups = record { id = codes "chat"; domain_suffix = codes "chat.net" ∷ [] } ∷ [];
  group_paths = (codes "chat", path_tunnel) ∷ [];
  exclude_suffixes = codes "bank.example" ∷ [];
  quic_reject_suffixes = [];
  clash_controller = controller_at (v4 2130706433);
  clash_secret = codes "secret";
}

abbrev pub choice : Text → Network → Tag
choice id network = default_of (on_tunnel params id) network

abbrev pub to_chat : Conn
to_chat = record {
  network = udp;
  protocol = some quic;
  dest = v4 1745879040;
  host = codes "cdn.chat.net";
  port = 443;
}

abbrev pub tun : Prefix
tun = record { addr = v4 173473793; bits = 30 }

abbrev pub built : SingBoxBuild
built = record {
  provider = provider_warp;
  config = record {
    listen_ip = codes "127.0.0.1";
    listen_port = 18081;
    tun_inbound = some (record {
      interface_name = codes "offveil";
      address = codes "10.87.0.1/30";
      mtu = 9000;
      route_address = split_default_cidrs;
      route_exclude_address = selective_exclusions params;
      stack = codes "mixed";
    });
    rules = selective_rules params (some tun);
    final = direct;
    outbounds =
        socks_out (codes "127.0.0.1") 18080 ∷ direct_out (codes "Ethernet") ∷ selectors params;
    endpoints =
        record {
          peer_host = codes "162.159.192.1";
          addresses = one_address (record { addr = v4 2886729730; bits = 32 }) ∷ [];
          bind_interface = codes "Ethernet";
        }
        ∷ [];
    dns_server = core_stub (v4 2130706433) 53;
    clash = some (v4 2130706433, codes "secret");
  };
}

pub params-built : build_selective_config windows params ≡ ok built
unfolding build_selective_config selective_rules selectors on_tunnel
params-built = refl
