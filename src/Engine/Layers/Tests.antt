-- ===== src/Engine/Layers/Tests.antt =====
-- A round of the DNS layer at a sample engine.
use offveil.Prelude.{◌*◌, ◌≤◌, ◌≡◌, refl, true, false, none, some, [], arith, minute}
use offveil.Engine.Signals.{dpi_present, fallback_layer}
use offveil.Engine.Core.{Engine}
use offveil.Engine.Samples.{running, helper, gateway}
use offveil.Engine.Layers.{
  all_up, Measurement, DnsRound, dns_round, begin_dns, layer_retry_budget, finish_dns,
}
use offveil.Engine.Layers.Fallback.{retries_bounded}

-- The TCP layer failed to start: DNS only.
abbrev fallen : Engine
fallen = record running {
  layer = fallback_layer;
  des = none;
  tun = none;
  desync_info = none;
  tunnel_info = none;
  desync_configured = false;
  tunnel_config = none;
  layer_retries = 2;
  last_layer_try = 5;
}

abbrev filters : Measurement
filters = record { dpi = dpi_present; checked_at = 12; checks = [] }

abbrev round : DnsRound
round = record { retry = true; measure = true }

round_due : begin_dns (6 * minute) fallen ≡ some round
unfolding begin_dns dns_round
round_due = refl

retries_bounded_example :
    (finish_dns 3 12 round false (some filters) (all_up helper gateway) fallen).layer_retries
    ≤ layer_retry_budget
retries_bounded_example =
    retries_bounded 3 (6 * minute) 12 false (some filters) (all_up helper gateway) fallen round
      round_due (omega arith)
