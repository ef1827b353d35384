-- ===== src/Engine/Heal/Tests.antt =====
-- Heals at a sample engine.
use offveil.Prelude.{
  ◌*◌, ◌≡◌, refl, true, false, none, some, [], ◌∷◌, codes, second, text_eq, arith,
}
use offveil.Ruleset.Document.{Document}
use offveil.Engine.Signals.{dpi_none}
use offveil.Engine.Core.{Engine}
use offveil.Engine.Samples.{running, helper}
use offveil.Engine.Layers.{helper_fails}
use offveil.Engine.Lifecycle.{Startup, capture_fails}
use offveil.Engine.Lifecycle.Sessions.{IsOff}
use offveil.Engine.Lifecycle.Stop.{stop}
use offveil.Engine.Heal.{
  power_resume, nothing, Rebind, begin_heal, decide_heal, restart_heal, soft_rebind, same_interface,
  can_rebind, heal_delay, adopt_network, move_interface,
}
use offveil.Engine.Heal.Requests.{Rebound, stop_wins, soft_rebind-Rebound}

abbrev policy : Document
policy = record {
  schema_version = 3;
  version = 9;
  updated_at = [];
  network = record { control_hosts = codes "a.org" ∷ codes "b.org" ∷ []; routes = [] };
  canaries = [];
  exclude = [];
  strategies = [];
  poison_ips = [];
  packages = [];
}

abbrev machine : Startup
machine = record {
  job_made = true;
  document = policy;
  capture = capture_fails;
  resolver = none;
  fingerprint = codes "f2";
  forced = false;
  measurement = record { dpi = dpi_none; checked_at = 20; checks = [] };
  attempt = helper_fails;
  canceled = false;
}

-- The same interface with a new address; the helper starts again.
abbrev rebind : Rebind
rebind = record {
  snapshot = some (record { name = codes "eth0"; address = codes "10.0.0.9" });
  helper = some helper;
}

-- The second heal within eight seconds waits for the rest of them.
cooldown : heal_delay (3 * second) (record running { last_heal_at = second }) ≡ 6 * second
unfolding heal_delay
cooldown = refl

stop_wins_example :
    let f = (stop running).0 in
    (begin_heal 2 4 60 f ≡ none)
    × (decide_heal 2 4 power_resume (codes "f2") 60 rebind f ≡ (f, nothing))
    × IsOff (restart_heal 2 4 60 machine f)
stop_wins_example =
    stop_wins 2 4 60 power_resume (codes "f2") rebind machine running refl (omega arith)

abbrev moved : Engine
moved = adopt_network (codes "f2") 60 (
    move_interface
      (
        record { name = codes "eth0"; address = codes "10.0.0.2" },
        record { name = codes "eth0"; address = codes "10.0.0.9" },
      )
      (some helper) running)

rebinds : soft_rebind (codes "f2") 60 rebind running ≡ some moved
unfolding soft_rebind same_interface can_rebind text_eq
rebinds = refl

soft_rebind-Rebound_example : Rebound (codes "f2") running moved
soft_rebind-Rebound_example = soft_rebind-Rebound (codes "f2") 60 rebind running moved rebinds
