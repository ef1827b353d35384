-- ===== src/Dns/Services.antt =====
-- Which services of macOS are steered to the resolver, and what networksetup prints of them: the first
-- half of offveil-core/internal/dns/system.go.
mod Tests
use offveil.Prelude.{
  ℕ, Bool, true, false, not, ◌&&◌, ◌||◌, Option, none, some, List, [], ◌∷◌, ◌++◌, Text, codes,
  is_empty, any, if◌then◌else◌, ◌==◌, to_lower, trim_space, has_prefix, trim_prefix, trim_suffix,
  contains_text, contains_any, contains, split, cut,
}
use offveil.Netip.{Addr}
use offveil.Netip.V6.{parse_addr}
use offveil.Netip.Prefix.{unmap}

-- hwService.
pub record Service : Type 0 where
  pub name : Text
  pub hardware_port : Text
  pub device : Text
  pub disabled : Bool

abbrev pub virtual_devices : List Text
virtual_devices =
    codes "utun"
    ∷ codes "ipsec"
    ∷ codes "ppp"
    ∷ codes "gif"
    ∷ codes "stf"
    ∷ codes "awdl"
    ∷ codes "llw"
    ∷ codes "bridge"
    ∷ []

-- vpnServiceTokens.
abbrev pub vpn_service_tokens : List Text
vpn_service_tokens =
    codes "vpn"
    ∷ codes "utun"
    ∷ codes "ipsec"
    ∷ codes "l2tp"
    ∷ codes "pptp"
    ∷ codes "ikev2"
    ∷ codes "anyconnect"
    ∷ codes "tailscale"
    ∷ codes "wireguard"
    ∷ codes "openvpn"
    ∷ codes "proton"
    ∷ codes "mullvad"
    ∷ codes "nordvpn"
    ∷ codes "warp"
    ∷ codes "zerotier"
    ∷ codes "hamachi"
    ∷ codes "tunnelblick"
    ∷ codes "viscosity"
    ∷ codes "cisco"
    ∷ []

abbrev any_prefix : Text → List Text → Bool
any_prefix s [] = false
any_prefix s (p ∷ ps) = has_prefix s p || any_prefix s ps

-- The body of skipNetworkService, on the texts in lower case.
abbrev pub skip_reason : Text → Text → Text → Text → Text
skip_reason name device blob dev =
    if not (is_empty dev) && any_prefix dev virtual_devices
    then codes "virtual:" ++ device
    else if contains_text blob (codes "thunderbolt bridge")
    then codes "bridge"
    else if contains_text blob (codes "bluetooth")
    then codes "bluetooth"
    else if contains_any blob vpn_service_tokens || contains_any dev vpn_service_tokens
    then codes "vpn:" ++ name
    else []

-- skipNetworkService: why a service is left alone, or the empty text.
unfoldable pub skip_network_service : Text → Text → Text → Text
unfolding to_lower trim_space contains_text contains_any has_prefix
skip_network_service name hardware_port device =
    skip_reason name device
      (to_lower (trim_space name) ++ (codes " " ++ to_lower (trim_space hardware_port)))
      (to_lower (trim_space device))

-- The two tests of filterDNSTargets.
abbrev pub is_target : Service → Bool
is_target s =
    not (s.disabled || is_empty (trim_space s.name))
    && is_empty (skip_network_service s.name s.hardware_port s.device)

-- filterDNSTargets.
abbrev pub filter_dns_targets : List Service → List Service
filter_dns_targets [] = []
filter_dns_targets (s ∷ ss) =
    let rest = filter_dns_targets ss in if is_target s then s ∷ rest else rest

abbrev begins_with : ℕ → Text → Bool
begins_with c [] = false
begins_with c (d ∷ s) = d == c

-- The two replacements of splitLines.
unfoldable line_ends : Text → Text
line_ends [] = []
line_ends (c ∷ s) =
    let rest = line_ends s in
    if c == 13 then (if begins_with 10 s then rest else 10 ∷ rest) else c ∷ rest

-- splitLines.
unfoldable pub split_lines : Text → List Text
unfolding line_ends split
split_lines s = split 10 (line_ends s)

abbrev after_colon : Text → Text
after_colon p = let (before, after, found) = cut b':' p in after

-- The loop of parseHardwarePortLine.
abbrev pub port_parts : List Text → Text × Text → Text × Text
port_parts [] found = found
port_parts (p ∷ ps) (port, device) =
    let s = trim_space p in
    port_parts ps (
      if has_prefix (to_lower s) (codes "hardware port:")
      then (trim_space (after_colon s), device)
      else if has_prefix (to_lower s) (codes "device:")
      then (port, trim_space (after_colon s))
      else (port, device))

-- parseHardwarePortLine.
unfoldable pub parse_hardware_port_line : Text → Text × Text
unfolding to_lower trim_space has_prefix cut split trim_prefix trim_suffix
parse_hardware_port_line line =
    port_parts (split b',' (trim_suffix (trim_prefix (trim_space line) (codes "(")) (codes ")")))
      ([], [])

abbrev named_after : Bool → Text × Text × Bool → Option (Text × Bool)
named_after disabled (number, rest, closed) =
    if not closed || is_empty (trim_space rest) then none else some (trim_space rest, disabled)

abbrev numbered : Bool → Text → Option (Text × Bool)
numbered disabled s = if has_prefix s (codes "(") then named_after disabled (cut b')' s) else none

-- parseServiceOrderName: the name of a service and whether it is disabled.
unfoldable pub parse_service_order_name : Text → Option (Text × Bool)
unfolding trim_space has_prefix cut trim_prefix
parse_service_order_name line =
    let s = trim_space line in
    let starred = has_prefix s (codes "*") in
    numbered starred (if starred then trim_space (trim_prefix s (codes "*")) else s)

abbrev flushed : Option Service → List Service
flushed none = []
flushed (some s) = s ∷ []

abbrev with_port : Text × Text → Option Service → Option Service
with_port found none = none
with_port (port, device) (some s) = some (record s { hardware_port = port; device = device })

abbrev begun : Option (Text × Bool) → Option Service → Option Service
begun none current = current
begun (some (name, off)) current =
    some (record { name = name; hardware_port = []; device = []; disabled = off })

abbrev closes : Option (Text × Bool) → Option Service → List Service
closes none current = []
closes (some found) current = flushed current

abbrev is_legend : Text → Bool
is_legend low = contains_text low (codes "asterisk") && contains_text low (codes "denotes")

abbrev is_port_line : Text → Bool
is_port_line line =
    has_prefix line (codes "(Hardware Port:") || has_prefix line (codes "(hardware port:")

-- The loop of parseListNetworkServiceOrder, with the service that is being read.
unfoldable pub service_order : List Text → Option Service → List Service
unfolding contains_text has_prefix to_lower parse_hardware_port_line parse_service_order_name
service_order [] current = flushed current
service_order (line ∷ lines) current =
    let skipped = is_legend (to_lower line) || is_empty line in
    let port = is_port_line line in
    let named = parse_service_order_name line in
    let rest = service_order lines (
      if skipped
      then current
      else if port
      then with_port (parse_hardware_port_line line) current
      else begun named current) in
    if skipped || port then rest else closes named current ++ rest

-- parseListNetworkServiceOrder.
unfoldable pub parse_list_network_service_order : Text → List Service
unfolding service_order split_lines
parse_list_network_service_order out = service_order (split_lines out) none

-- One line of parseListAllNetworkServices.
abbrev pub listed_service : Text → List Service
listed_service line =
    let starred = has_prefix line (codes "*") in
    let name = if starred then trim_space (trim_prefix line (codes "*")) else line in
    if is_empty name
    then []
    else record { name = name; hardware_port = []; device = []; disabled = starred } ∷ []

abbrev pub listed_services : List Text → List Service
listed_services [] = []
listed_services (line ∷ lines) = listed_service line ++ listed_services lines

abbrev without_legend : List Text → List Text
without_legend [] = []
without_legend (line ∷ lines) =
    if contains_text (to_lower line) (codes "asterisk")
      || contains_text (to_lower line) (codes "denotes")
    then lines
    else line ∷ lines

-- parseListAllNetworkServices.
unfoldable pub parse_list_all_network_services : Text → List Service
unfolding split_lines contains_text to_lower has_prefix trim_prefix trim_space
parse_list_all_network_services out = listed_services (without_legend (split_lines out))

abbrev unmapped : Option Addr → Option Addr
unmapped none = none
unmapped (some a) = some (unmap a)

-- net.ParseIP, which does not tell a mapped address from the address that it maps.
unfoldable pub parse_ip : Text → Option Addr
unfolding parse_addr
parse_ip s = unmapped (parse_addr s)

abbrev cons_some : Option Addr → List Addr → List Addr
cons_some none rest = rest
cons_some (some a) rest = a ∷ rest

abbrev pub addresses_of : List Text → List Addr
addresses_of [] = []
addresses_of (line ∷ lines) =
    let rest = addresses_of lines in
    if is_empty (trim_space line) then rest else cons_some (parse_ip (trim_space line)) rest

-- parseGetDNSServers: the servers, and whether they come from DHCP.
unfoldable pub parse_get_dns_servers : Text → List Addr × Bool
unfolding trim_space contains_text to_lower split_lines parse_ip
parse_get_dns_servers out =
    let s = trim_space out in
    let low = to_lower s in
    let servers = addresses_of (split_lines s) in
    if is_empty s
      || contains_text low (codes "aren't any dns")
      || contains_text low (codes "are not any dns")
      || contains_text low (codes "error:")
    then ([], true)
    else (servers, is_empty servers)
