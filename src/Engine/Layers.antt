-- ===== src/Engine/Layers.antt =====
-- The layers of protection: offveil-core/internal/engine/layers.go, applyClassificationLocked of startup.go and
-- checkDNSLayerLocked of network_health.go. What the start of the helper and of the gateway brings is an argument.
pub mod Fallback
mod Tests
use offveil.Prelude.{
  ℕ, suc, ◌+◌, ◌-◌, ◌*◌, ◌≡◌, Bool, true, false, not, ◌&&◌, ◌||◌, List, [], ◌∷◌, Option, none, some,
  Text, leb, ltb, ◌==◌, if◌then◌else◌, minute,
}
use offveil.Engine.Signals.{
  CheckClass, check_ok, Dpi, dpi_none, dpi_present, dpi_offline, dpi_unknown, Layer, dns_layer,
  selective_layer, fallback_layer, Component, desync_component, elapsed,
}
use offveil.Engine.Classify.{HostCheck}
use offveil.Engine.Groups.{GroupState, update_group, group_paths}
use offveil.Engine.Core.{
  Engine, Helper, Gateway, Classification, Hook, layer_hook, unavailable, layer_failed,
  adapter_attach_failed, dns_only_fallback, classified, layer_started, current_session,
  record_failure,
}
use offveil.Engine.Status.{refresh_network_status, publish, is_selective, is_fallback}

abbrev pub layer_retry_interval : ℕ
layer_retry_interval = 2 * minute

abbrev pub layer_retry_budget : ℕ
layer_retry_budget = 3

abbrev pub reclassify_interval : ℕ
reclassify_interval = 5 * minute

-- How far the start of the TCP layer comes: the helper does not start, the gateway does not, its
-- adapter does not attach, or all of them work.
pub data Attempt : Type 0 where
  helper_fails : Attempt
  gateway_fails : Helper → Attempt
  attach_fails : Helper → Gateway → Attempt
  all_up : Helper → Gateway → Attempt

-- stopLayer1Locked.
unfoldable pub stop_layer : Engine → Engine
stop_layer e = record e {
  tun = none;
  des = none;
  tunnel_info = none;
  desync_info = none;
  tunnel_config = none;
  desync_configured = false;
}

abbrev pub with_helper : Helper → Engine → Engine
with_helper h e = record e { des = some h; desync_configured = true; desync_info = some h.info }

abbrev pub with_gateway : Gateway → Engine → Engine
with_gateway g e = record e { tun = some g; tunnel_config = some (group_paths e.groups) }

abbrev pub register_layer : Engine → Engine
register_layer e =
    if e.layer_cleanup then e else record e { layer_cleanup = true; hooks = layer_hook ∷ e.hooks }

-- startLayer1Locked; `announce` publishes the stages, or does nothing where the source passes nil.
unfoldable pub start_layer : (Engine → Engine) → ℕ → Attempt → Engine → Engine × Bool
unfolding stop_layer
start_layer announce now helper_fails e =
    let e1 = announce (record e { last_layer_try = now }) in
    (record_failure unavailable (some desync_component) [] 0 e1, false)
start_layer announce now (gateway_fails h) e =
    let e1 = with_helper h (announce (record e { last_layer_try = now })) in
    (stop_layer (record_failure layer_failed none [] 0 (announce e1)), false)
start_layer announce now (attach_fails h g) e =
    let e1 = with_helper h (announce (record e { last_layer_try = now })) in
    let e2 = announce (with_gateway g (announce e1)) in
    (stop_layer (record_failure adapter_attach_failed none [] 0 e2), false)
start_layer announce now (all_up h g) e =
    let e1 = with_helper h (announce (record e { last_layer_try = now })) in
    let e2 = announce (with_gateway g (announce e1)) in
    let e3 = register_layer (record e2 { tunnel_info = some g.info }) in
    (record e3 { layer = selective_layer }, true)

-- fallbackLocked.
unfoldable pub fall_back : Engine → Engine
unfolding stop_layer
fall_back e =
    record_failure dns_only_fallback none [] 0 (record (stop_layer e) { layer = fallback_layer })

-- A measurement of the network with its time stamp.
pub record Measurement : Type 0 where
  pub dpi : Dpi
  pub checked_at : ℕ
  pub checks : List HostCheck

abbrev pub same_dpi : Dpi → Dpi → Bool
same_dpi dpi_none dpi_none = true
same_dpi dpi_present dpi_present = true
same_dpi dpi_offline dpi_offline = true
same_dpi dpi_unknown dpi_unknown = true
same_dpi _ _ = false

abbrev is_none : Dpi → Bool
is_none dpi_none = true
is_none _ = false

abbrev force : Bool → Dpi → Dpi
force forced d = if is_none d && forced then dpi_present else d

abbrev was : Option Classification → Dpi → Bool
was none d = false
was (some c) d = same_dpi c.dpi d

abbrev check_group : ℕ → CheckClass → GroupState → GroupState
check_group at class g = record g {
  checked = true;
  class = some class;
  checked_at = at;
  ok = check_ok class;
}

pub apply_checks : ℕ → List HostCheck → List GroupState → List GroupState
apply_checks at [] gs = gs
apply_checks at (c ∷ cs) gs = apply_checks at cs (update_group c.group (check_group at c.class) gs)

-- applyClassificationLocked; `forced` is what forceLayer reports.
unfoldable pub apply_classification : Bool → ℕ → Measurement → Engine → Engine
apply_classification forced now m e =
    let dpi = force forced m.dpi in
    let e1 = record e {
      classification = some (record { dpi = dpi; checked_at = m.checked_at });
      last_classify = now;
      reclassify = false;
      groups =
          if is_selective e.layer then e.groups else apply_checks m.checked_at m.checks e.groups;
    } in
    if was e.classification dpi then e1 else record_failure classified none [] 0 e1

-- The round of the monitor without the TCP layer: whether the fallback is due for another try, and
-- whether the network is measured.
pub record DnsRound : Type 0 where
  pub retry : Bool
  pub measure : Bool

unfoldable pub dns_round : ℕ → Engine → DnsRound
dns_round now e = record {
  retry =
      is_fallback e.layer
      && ltb e.layer_retries layer_retry_budget
      && elapsed layer_retry_interval e.last_layer_try now;
  measure = e.reclassify || elapsed reclassify_interval e.last_classify now;
}

-- checkDNSLayerLocked, first section: nothing is due, or the round.
unfoldable pub begin_dns : ℕ → Engine → Option DnsRound
unfolding dns_round
begin_dns now e =
    let round = dns_round now e in if round.retry || round.measure then some round else none

abbrev pub measured : Bool → ℕ → Option Measurement → Engine → Engine
measured forced now none e = e
measured forced now (some m) e = apply_classification forced now m e

abbrev is_dns : Layer → Bool
is_dns dns_layer = true
is_dns _ = false

abbrev is_present : Option Classification → Bool
is_present none = false
is_present (some c) = same_dpi c.dpi dpi_present

abbrev pub wants_layer : Bool → Engine → Bool
wants_layer retry e = retry || is_dns e.layer && is_present e.classification

abbrev count_retry : Bool → Engine → Engine
count_retry retry e = if retry then record e { layer_retries = suc e.layer_retries } else e

abbrev pub settle_layer : Engine × Bool → Engine
settle_layer (e, up) =
    let e1 = record e { strategy_switching = false } in
    if up then record_failure layer_started none [] 0 e1 else fall_back e1

-- The TCP layer is tried; one that fails leaves the fallback.
unfoldable pub try_layer : Bool → ℕ → Attempt → Engine → Engine
unfolding start_layer fall_back
try_layer retry now attempt e = settle_layer (
    start_layer (λ f. f) now attempt
      (publish (record (count_retry retry e) { strategy_switching = true })))

-- Second section: the measurement, if one was due and there is a direct probe, and the start of the layer.
unfoldable pub finish_dns : ℕ → ℕ → DnsRound → Bool → Option Measurement → Attempt → Engine → Engine
unfolding try_layer apply_classification
finish_dns generation now round forced m attempt e =
    let e1 = measured forced now m e in
    let e2 = if wants_layer round.retry e1 then try_layer round.retry now attempt e1 else e1 in
    if not (current_session generation e) || is_selective e.layer
    then e
    else publish (refresh_network_status e2)
