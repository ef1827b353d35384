-- ===== src/Engine/Lifecycle/Tests.antt =====
-- Sessions at sample engines.
use offveil.Prelude.{◌<◌, ◌≡◌, refl, true, false, none, some, [], ◌∷◌, codes}
use offveil.Ruleset.Document.{Document}
use offveil.Engine.Signals.{stopped, dpi_present}
use offveil.Engine.Core.{Engine, is_running}
use offveil.Engine.Samples.{running, helper, gateway}
use offveil.Engine.Layers.{all_up}
use offveil.Engine.Lifecycle.{Startup, captured}
use offveil.Engine.Lifecycle.Sessions.{all_called, IsOff}
use offveil.Engine.Lifecycle.Stop.{announce_stop, stop, crash_cleanup}
use offveil.Engine.Lifecycle.Stop.Ends.{stop-IsOff, stop_hides}

abbrev off : Engine
off = record running {
  state = stopped;
  protection = false;
  dns = none;
  des = none;
  tun = none;
  dns_info = none;
  desync_info = none;
  tunnel_info = none;
  hooks = [];
}

abbrev policy : Document
policy = record {
  schema_version = 3;
  version = 9;
  updated_at = [];
  network = record { control_hosts = codes "a.org" ∷ codes "b.org" ∷ []; routes = [] };
  canaries = [];
  exclude = [];
  strategies = [];
  poison_ips = [];
  packages = [];
}

-- The network filters, the TCP layer starts.
abbrev machine : Startup
machine = record {
  job_made = true;
  document = policy;
  capture = captured none;
  resolver = some true;
  fingerprint = codes "f1";
  forced = false;
  measurement = record { dpi = dpi_present; checked_at = 20; checks = [] };
  attempt = all_up helper gateway;
  canceled = false;
}

stop-IsOff_example :
    (IsOff (stop running).0
      × ((stop running).0.called ≡ all_called running.hooks [])
      × ((stop running).1 ≡ none)
      × (3 < (stop running).0.session_generation))
    × (IsOff (crash_cleanup running)
        × ((crash_cleanup running).called ≡ all_called running.hooks [])
        × (3 < (crash_cleanup running).session_generation))
stop-IsOff_example = stop-IsOff running refl

stop_hides_example : is_running (announce_stop running).state ≡ true
stop_hides_example = stop_hides running refl
