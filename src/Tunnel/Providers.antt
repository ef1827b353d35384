-- ===== src/Tunnel/Providers.antt =====
-- Start of session.go for a tunnel of its own, with the order of the providers (reality.go): one provider
-- after the other, until one is up.
pub mod Failover
mod Tests
use offveil.Prelude.{
  ℕ, Bool, true, false, not, ◌&&◌, ◌||◌, Option, none, some, List, [], ◌∷◌, ◌++◌, Text, is_empty,
  if◌then◌else◌,
}
use offveil.Tunnel.Types.{ProviderId, provider_warp, provider_reality, provider_desync}
use offveil.Tunnel.Session.{FailClass, fail_ok, fail_auth, Stage, ProviderFailure}

-- ProviderOrder; `reality` says whether credentials are there and `failover` whether both are tried.
unfoldable pub provider_order : Bool → Bool → List ProviderId
provider_order reality failover =
    if not reality
    then provider_warp ∷ []
    else if failover
    then provider_reality ∷ provider_warp ∷ []
    else provider_reality ∷ []

-- failoverEnabled.
abbrev pub failover_enabled : Option Bool → Bool
failover_enabled none = true
failover_enabled (some b) = b

-- How startOne ended for a provider: its gateway is up, or the class, the stage and the text of the error.
pub data Launched : Type 0 where
  came_up : Launched
  fails_with : FailClass → Stage → Text → Launched

-- What a session of Start reports, and what it tells the policy.
pub record Provided : Type 0 where
  pub provider : ProviderId
  pub up : Bool
  pub last_probe : FailClass
  pub retry_hint : Bool
  pub fail_detail : Text
  pub failover_from : Option ProviderId
  pub tried : List ProviderId
  pub failures : List ProviderFailure

-- The loop's memory: those tried, their failures, and the last failure.
pub record Progress : Type 0 where
  pub tried : List ProviderId
  pub failures : List ProviderFailure
  pub previous : Option ProviderId
  pub class : FailClass
  pub detail : Text

abbrev no_progress : Progress
no_progress = record { tried = []; failures = []; previous = none; class = fail_auth; detail = [] }

abbrev pub failure_of : ProviderId → FailClass → Stage → ProviderFailure
failure_of provider class stage = record { provider = provider; class = class; stage = stage }

abbrev pub provided : ProviderId → Progress → Provided
provided provider m = record {
  provider = provider;
  up = true;
  last_probe = fail_ok;
  retry_hint = false;
  fail_detail = [];
  failover_from = m.previous;
  tried = m.tried ++ (provider ∷ []);
  failures = m.failures;
}

abbrev pub failed : ProviderId → FailClass → Stage → Text → Progress → Progress
failed provider class stage detail m = record {
  tried = m.tried ++ (provider ∷ []);
  failures = m.failures ++ (failure_of provider class stage ∷ []);
  previous = some provider;
  class = class;
  detail = detail;
}

abbrev detail_or : Text → Text → Text
detail_or d s = if is_empty s then d else s

-- failSession at the end of the loop; `all_failed` is its fixed text.
abbrev pub exhausted : Text → ProviderId → Progress → Provided
exhausted all_failed last m = record {
  provider = last;
  up = false;
  last_probe = m.class;
  retry_hint = true;
  fail_detail = detail_or all_failed m.detail;
  failover_from = m.previous;
  tried = m.tried;
  failures = m.failures;
}

abbrev pub after : Launched → ProviderId → Progress → (Progress → Provided) → Provided
after came_up provider m later = provided provider m
after (fails_with class stage detail) provider m later =
    later (failed provider class stage detail m)

-- The loop over the providers; `last` is the one before.
unfoldable pub try_each :
    Text → (ProviderId → Launched) → ProviderId → List ProviderId → Progress → Provided
try_each all_failed launch last [] m = exhausted all_failed last m
try_each all_failed launch last (p ∷ ps) m =
    after (launch p) p m (λ n. try_each all_failed launch p ps n)

-- Start with AllowlistOutbound tunnel.
unfoldable pub start_providers : Text → (ProviderId → Launched) → Bool → Option Bool → Provided
unfolding try_each provider_order
start_providers all_failed launch reality failover =
    try_each all_failed launch provider_warp (provider_order reality (failover_enabled failover))
      no_progress

-- recordProbe: what a later probe changes.
unfoldable pub record_probe : FailClass → Text → Provided → Provided
record_probe fail_ok detail s = record s {
  last_probe = fail_ok;
  retry_hint = false;
  fail_detail = [];
}
record_probe class detail s = record s {
  last_probe = class;
  retry_hint = true;
  fail_detail = detail;
}
