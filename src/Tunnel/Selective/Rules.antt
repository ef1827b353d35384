-- ===== src/Tunnel/Selective/Rules.antt =====
-- The rules and selectors of the selective gateway (selective_config.go).
use offveil.Prelude.{
  Bool, true, false, not, ◌&&◌, Option, none, some, List, [], ◌∷◌, ◌++◌, Text, is_empty,
  if◌then◌else◌, lookup, text_eq,
}
use offveil.Netip.Prefix.{Prefix, masked}
use offveil.Tunnel.Types.{
  ProviderId, provider_desync, path_tunnel, GroupRoute, BuildParams, Network, tcp, udp, dns, quic,
  Tag, direct, desync, tunnel, selector, Action, sniff, hijack_dns, reject_drop, route_to,
  Condition, protocol_is, in_cidr, ip_is_private, in_suffix, network_is, ipv4_only, port_in, Rule,
  Outbound, selector_out,
}
use offveil.Tunnel.Addresses.{network_route_exclusions}

abbrev pub is_remote : ProviderId → Bool
is_remote provider_desync = false
is_remote _ = true

abbrev pub rule : List Condition → Action → Rule
rule conditions action = record { conditions = conditions; action = action }

-- A group that gets selectors and rules.
abbrev pub is_routed : GroupRoute → Bool
is_routed g = not (is_empty g.id) && not (is_empty g.domain_suffix)

abbrev pub text_is : Text → Option Text → Bool
text_is s none = false
text_is s (some t) = text_eq t s

-- Whether the path of a group is the tunnel.
abbrev pub path_is_tunnel : List (Text × Text) → Text → Bool
path_is_tunnel paths id = text_is path_tunnel (lookup id paths)

unfoldable pub on_tunnel : BuildParams → Text → Bool
unfolding lookup text_eq
on_tunnel p id = path_is_tunnel p.group_paths id

-- The outbound that a selector starts with, and those that it can take.
abbrev pub default_of : Bool → Network → Tag
default_of true network = tunnel
default_of false tcp = desync
default_of false udp = direct

abbrev choices_of : Network → List Tag
choices_of tcp = desync ∷ tunnel ∷ []
choices_of udp = direct ∷ tunnel ∷ []

abbrev selector_for : BuildParams → Text → Network → Outbound
selector_for p id network =
    selector_out (selector id network) (choices_of network) (default_of (on_tunnel p id) network)

abbrev group_selectors : BuildParams → List GroupRoute → List Outbound
group_selectors p [] = []
group_selectors p (g ∷ gs) =
    let rest = group_selectors p gs in
    if is_routed g then selector_for p g.id tcp ∷ selector_for p g.id udp ∷ rest else rest

unfoldable pub selectors : BuildParams → List Outbound
unfolding on_tunnel
selectors p = group_selectors p (if is_remote p.provider then p.groups else [])

abbrev pub group_rule : GroupRoute → Network → Rule
group_rule g network =
    rule (in_suffix g.domain_suffix ∷ network_is network ∷ []) (route_to (selector g.id network))

abbrev pub group_rules : List GroupRoute → List Rule
group_rules [] = []
group_rules (g ∷ gs) =
    let rest = group_rules gs in
    if is_routed g then group_rule g tcp ∷ group_rule g udp ∷ rest else rest

abbrev pub own_rules : Option Prefix → List Rule
own_rules none = []
own_rules (some q) = rule (in_cidr (masked q ∷ []) ∷ []) reject_drop ∷ []

abbrev pub suffix_rules : List Text → List Condition → Action → List Rule
suffix_rules [] others action = []
suffix_rules (s ∷ ss) others action = rule (others ++ (in_suffix (s ∷ ss) ∷ [])) action ∷ []

abbrev pub web_rule : Rule
web_rule = rule (ipv4_only ∷ network_is tcp ∷ port_in (80 ∷ 443 ∷ []) ∷ []) (route_to desync)

-- The rules in front of the groups, without the first, which only sniffs.
unfoldable pub local_rules : BuildParams → Option Prefix → List Rule
unfolding network_route_exclusions masked
local_rules p tun =
    rule (protocol_is dns ∷ []) hijack_dns
    ∷ (own_rules tun
        ++ (rule (ip_is_private ∷ []) (route_to direct)
            ∷ rule (in_cidr (network_route_exclusions p) ∷ []) (route_to direct)
            ∷ (suffix_rules p.exclude_suffixes [] (route_to direct)
                ++ suffix_rules p.quic_reject_suffixes (protocol_is quic ∷ []) reject_drop)))

abbrev pub routed_groups : BuildParams → List GroupRoute
routed_groups p = if is_remote p.provider then p.groups else []

-- The rules, in the order in which the gateway tries them.
unfoldable pub selective_rules : BuildParams → Option Prefix → List Rule
unfolding local_rules
selective_rules p tun =
    rule [] sniff ∷ (local_rules p tun ++ (group_rules (routed_groups p) ++ (web_rule ∷ [])))
