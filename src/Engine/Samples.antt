-- ===== src/Engine/Samples.antt =====
-- Engines for the tests.
use offveil.Prelude.{true, false, [], ◌∷◌, none, some, codes}
use offveil.Ruleset.Document.{canary_persistent}
use offveil.Engine.Signals.{desync_path, selective_layer, active, dpi_present}
use offveil.Engine.Groups.{GroupState}
use offveil.Engine.Core.{
  layer_hook, dns_hook, capture_hook, doh_hook, job_hook, Engine, Helper, Gateway, open_summary,
  ok_outcome,
}

abbrev pub chat : GroupState
chat = record {
  id = codes "chat";
  label = [];
  kind = canary_persistent;
  hosts = codes "chat.net" ∷ [];
  suffixes = codes "chat.net" ∷ [];
  path = desync_path;
  class = none;
  ok = false;
  checked = false;
  failures = 1;
  unreachable = false;
  checked_at = 0;
  last_scan = 0;
  last_escalation = 0;
}

abbrev pub helper : Helper
helper = record { handle = 5; info = record { up = true; pid = 41 } }

abbrev pub gateway : Gateway
gateway = record {
  handle = 6;
  info = record { up = true; healthy = true; pid = 42; tunnel_available = false; paths = [] };
}

-- Session 3 in the selective layer, all components up, one group that failed once.
abbrev pub running : Engine
running = record {
  lifecycle_generation = 2;
  session_generation = 3;
  state = active;
  protection = true;
  summary = open_summary;
  last_error = none;
  outcome = ok_outcome;
  dns = some true;
  des = some helper;
  tun = some gateway;
  dns_info = some true;
  desync_info = some (record { up = true; pid = 41 });
  tunnel_info = some gateway.info;
  dns_configured = true;
  desync_configured = true;
  tunnel_config = some [];
  strategy_switching = false;
  desync_scan = false;
  recovery_attempts = record { dns = 0; desync = 0; tunnel = 0 };
  last_recovery = 0;
  last_path_check = 0;
  failure_key = none;
  network_check = none;
  network_failures = 0;
  layer = selective_layer;
  layer_retries = 0;
  last_layer_try = 0;
  classification = some (record { dpi = dpi_present; checked_at = 7 });
  last_classify = 7;
  reclassify = false;
  groups = chat ∷ [];
  group_work = false;
  monitor_round = 4;
  cap = true;
  capture_info = some (some (record { name = codes "eth0"; address = codes "10.0.0.2" }));
  hooks = layer_hook ∷ dns_hook ∷ capture_hook ∷ doh_hook ∷ job_hook ∷ [];
  called = [];
  layer_cleanup = true;
  control_hosts = codes "a.org" ∷ codes "b.org" ∷ [];
  expand_seen = [];
  fingerprint = codes "f1";
  healing = false;
  heal_count = 0;
  last_heal_at = 0;
  journal = [];
}

-- The helper has exited.
abbrev pub crippled : Engine
crippled = record running {
  des = some (record { handle = 5; info = record { up = false; pid = 41 } });
}
