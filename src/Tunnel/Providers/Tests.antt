-- ===== src/Tunnel/Providers/Tests.antt =====
-- Credentials are there, but the first provider fails.
use offveil.Prelude.{◌≡◌, refl, true, false, none, some, [], codes}
use offveil.Tunnel.Types.{ProviderId, provider_warp, provider_reality}
use offveil.Tunnel.Session.{fail_dial, configuration}
use offveil.Tunnel.Providers.{
  Launched, came_up, fails_with, start_providers, provider_order, failover_enabled,
}
use offveil.Tunnel.Providers.Failover.{IsFirstUp, start_providers_lem}

abbrev launch : ProviderId → Launched
launch provider_reality = fails_with fail_dial configuration (codes "refused")
launch _ = came_up

both : (start_providers (codes "all providers failed") launch true none).provider ≡ provider_warp
unfolding start_providers
both = refl

alone :
    (start_providers (codes "all providers failed") launch true (some false)).fail_detail
    ≡ codes "refused"
unfolding start_providers
alone = refl

start_providers_lem_example :
    IsFirstUp launch []
      (provider_order true (failover_enabled none))
      (start_providers (codes "all providers failed") launch true none)
start_providers_lem_example = start_providers_lem (codes "all providers failed") launch true none
