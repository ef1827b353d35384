-- ===== src/Dns/Services/Tests.antt =====
-- What networksetup prints, read.
use offveil.Prelude.{◌≡◌, refl, true, false, [], ◌∷◌, ◌++◌, Text, codes}
use offveil.Netip.{v4}
use offveil.Dns.Services.{
  Service, parse_list_network_service_order, parse_get_dns_servers, filter_dns_targets,
  skip_network_service,
}

abbrev printed : Text
printed =
    codes "An asterisk (*) denotes that a network service is disabled."
    ++ (10 ∷ codes "(1) Wi-Fi")
    ++ (10 ∷ codes "(Hardware Port: Wi-Fi, Device: en0)")
    ++ (10 ∷ [])
    ++ (10 ∷ codes "(2) Work VPN")
    ++ (10 ∷ codes "(Hardware Port: L2TP, Device: )")

abbrev wifi : Service
wifi = record {
  name = codes "Wi-Fi";
  hardware_port = codes "Wi-Fi";
  device = codes "en0";
  disabled = false;
}

abbrev work : Service
work = record {
  name = codes "Work VPN";
  hardware_port = codes "L2TP";
  device = [];
  disabled = false;
}

read_order : parse_list_network_service_order printed ≡ wifi ∷ work ∷ []
unfolding parse_list_network_service_order
read_order = refl

only_wifi : filter_dns_targets (wifi ∷ work ∷ []) ≡ wifi ∷ []
unfolding skip_network_service
only_wifi = refl

read_servers :
    parse_get_dns_servers (codes "192.168.1.1" ++ (13 ∷ 10 ∷ codes "8.8.8.8"))
    ≡ (v4 3232235777 ∷ v4 134744072 ∷ [], false)
unfolding parse_get_dns_servers
read_servers = refl

read_none : parse_get_dns_servers (codes "There aren't any DNS Servers set on Wi-Fi.") ≡ ([], true)
unfolding parse_get_dns_servers
read_none = refl
