-- ===== src/Probe/Session/Tests.antt =====
-- A report over three hosts, with a control host that is open and one that is not.
use offveil.Prelude.{
  ◌≡◌, ◌≢◌, ◌↔◌, refl, Bool, true, false, none, some, List, [], ◌∷◌, Text, codes, any, all, text_eq,
  if◌then◌else◌,
}
use offveil.Netip.{Addr, v4}
use offveil.Probe.{is_forced, tunnel, desync, direct, prefer_path}
use offveil.Probe.Errors.{TlsError, conn_reset, other_errno, classify_tls_err, classify_op}
use offveil.Probe.Target.{
  World, answered, Dial, handshake, refused, target_probe, dial_all, dial_from, pick_dial_ips,
}
use offveil.Probe.Session.{Options, session, is_open, is_healthy, control_probe, weighed}
use offveil.Probe.Session.Chosen.{session_lem}

abbrev reset : TlsError
reset = record {
  deadline = false;
  op = some (record { dial = false; timed_out = false; errno = conn_reset; message = [] });
  message = [];
  times_out = false;
  ends = false;
}

abbrev drop : TlsError
drop = record {
  deadline = false;
  op = some (record { dial = true; timed_out = true; errno = other_errno; message = [] });
  message = [];
  times_out = true;
  ends = false;
}

-- The control host opens in time if `up`; of the others one opens, one is reset and one is dropped.
abbrev dial_of : Bool → Text → Addr → Dial
dial_of up host a =
    if text_eq host (codes "control.net")
    then (if up then handshake 0 else refused reset)
    else if text_eq host (codes "reset.net")
    then refused reset
    else if text_eq host (codes "drop.net")
    then refused drop
    else handshake 0

abbrev world : Bool → World
world up = record {
  system_poisoned = λ h. false;
  resolve = λ h. answered (v4 1 ∷ v4 2 ∷ []);
  is_poison = λ a. false;
  dial = dial_of up;
  http_head = λ h. none;
  took_of = λ h. 5;
}

abbrev options : Options
options = record { skip_control = false; control_host = codes "control.net"; control_tls = 0 }

abbrev hosts : List Text
hosts = codes "open.net" ∷ codes "reset.net" ∷ codes "drop.net" ∷ []

chosen_healthy : (session (world true) hosts options).chosen ≡ tunnel
unfolding session weighed target_probe control_probe prefer_path dial_all dial_from pick_dial_ips
    classify_tls_err classify_op text_eq
chosen_healthy = refl

chosen_unhealthy : (session (world false) hosts options).chosen ≡ desync
unfolding session weighed target_probe control_probe prefer_path dial_all dial_from pick_dial_ips
    classify_tls_err classify_op text_eq
chosen_unhealthy = refl

session_lem_example :
    (((session (world true) hosts options).chosen ≡ tunnel)
      ↔ (any (λ r. is_forced r.class) (session (world true) hosts options).results ≡ true))
    × (((session (world true) hosts options).chosen ≡ direct)
        ↔ (all (λ r. is_open r.class) (session (world true) hosts options).results ≡ true))
    × (is_healthy (control_probe (world true) options) ≡ false
        → (session (world true) hosts options).chosen ≢ tunnel)
session_lem_example = session_lem (world true) hosts options
