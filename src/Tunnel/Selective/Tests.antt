-- ===== src/Tunnel/Selective/Tests.antt =====
-- A gateway with one group on the tunnel, and a process that keeps to what Routing asks of it.
use offveil.Prelude.{◌≡◌, refl, ◌↔◌, inl, inr, Option, some, ok, has_suffix}
use offveil.Netip.{v4}
use offveil.Netip.Prefix.{Prefix, parse_prefix, must_parse_prefix, agree}
use offveil.Netip.V6.{parse_addr}
use offveil.Capture.{default_exclude_prefixes, local_prefixes, bootstrap_exclude_prefixes}
use offveil.Tunnel.Types.{windows, tunnel}
use offveil.Tunnel.Selective.{build_selective_config, tun_prefix, equal_fold}
use offveil.Tunnel.Selective.Rules.{routed_groups, on_tunnel, selective_rules, local_rules}
use offveil.Tunnel.Selective.Routing.{leaves, Outside}
use offveil.Tunnel.Selective.Proxied.{Proxied}
use offveil.Tunnel.Selective.Built.{build-Proxied}
use offveil.Tunnel.Selective.Checks.{
  IsOk, TunChecked, DnsChecked, ProviderChecked, ControlChecked, build_selective_config_iff,
}
use offveil.Tunnel.Selective.Sample.{
  first_match, params, choice, to_chat, built, params-built, decide,
}

params-Checked :
    TunChecked params
    × DnsChecked params.dns_address
    × ProviderChecked params params.provider
    × ControlChecked params.clash_secret params.clash_controller
unfolding equal_fold parse_prefix parse_addr
params-Checked = (
  inr (refl, (record { addr = v4 173473793; bits = 30 }, refl, refl)),
  (v4 2130706433, refl, refl, refl),
  (_, refl, inr (inr (v4 2886729730, refl)), inl refl),
  (refl, refl),
)

build_selective_config_iff_example : IsOk (build_selective_config windows params) ↔ (
    TunChecked params
    × DnsChecked params.dns_address
    × ProviderChecked params params.provider
    × ControlChecked params.clash_secret params.clash_controller)
build_selective_config_iff_example = build_selective_config_iff windows params

chat-tunnel : leaves choice (decide built.config.rules built.config.final to_chat) ≡ some tunnel
unfolding selective_rules local_rules on_tunnel agree default_exclude_prefixes local_prefixes
    must_parse_prefix bootstrap_exclude_prefixes has_suffix
chat-tunnel = refl

build-Proxied_example :
    (o : Option Prefix) × (tun_prefix params ≡ ok o)
    × Outside first_match choice to_chat tunnel params o
    × Proxied first_match choice to_chat tunnel (routed_groups params)
build-Proxied_example =
    build-Proxied first_match windows params built choice to_chat tunnel params-built (λ h. cc h)
      chat-tunnel
