-- ===== src/Engine/Reprobe/Tests.antt =====
-- A decision that has expired is probed again.
use offveil.Prelude.{◌≡◌, ◌+◌, ◌*◌, refl, true, [], ◌∷◌, some, text_eq, codes, arith, second, hour}
use offveil.Netinfo.{Network}
use offveil.Engine.Samples.{running}
use offveil.Policy.Store.{Store, new_store, look_up, ttl_for, expired_domains}
use offveil.Probe.{class_open}
use offveil.Probe.Target.{ProbeResult}
use offveil.Engine.Heal.{physical_network_changed}
use offveil.Engine.Reprobe.{silent_reprobe_session}
use offveil.Engine.Reprobe.Refreshed.{entry_from, last_result, silent_reprobe_session_lem}

-- A decision of the first instant, with a time to live of a second.
abbrev stale : Store
stale = record new_store {
  entries =
      (
        codes "chat",
        record {
          domain = codes "chat";
          path = codes "desync";
          class = codes "dpi_reset";
          strategy_id = [];
          updated_at = 1;
          ttl = second;
        },
      )
      ∷ [];
}

abbrev home : Network
home = record { fingerprint = running.fingerprint; asn = []; isp_hint = [] }

abbrev now_open : ProbeResult
now_open = record {
  target = codes "chat";
  class = class_open;
  path = [];
  ok = true;
  confidence = 90;
  took = second;
}

silent_reprobe_session_lem_example :
    (look_up
      (codes "chat")
      (10 * second + hour)
      (silent_reprobe_session running.session_generation
        (9 * second)
        (10 * second)
        home
        (λ hosts. now_open ∷ [])
        running
        running
        running
        stale).0).1
    ≡ some (entry_from (10 * second) now_open)
unfolding ttl_for last_result physical_network_changed text_eq expired_domains
silent_reprobe_session_lem_example =
    silent_reprobe_session_lem running.session_generation (9 * second) (10 * second) hour home
      (λ hosts. now_open ∷ []) running running running stale (codes "chat") now_open refl refl refl
      refl refl refl (omega arith)
