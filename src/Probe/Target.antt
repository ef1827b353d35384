-- ===== src/Probe/Target.antt =====
-- Target of probe.go: one probe, from the resolver to the handshake.
-- Times are in nanoseconds and a confidence is in hundredths.
use offveil.Prelude.{
  ℕ, zero, suc, ◌*◌, Bool, true, false, not, ◌&&◌, ◌||◌, Option, none, some, List, [], ◌∷◌, Text,
  codes, if◌then◌else◌, contains_any, is_empty, any, leb, ltb, millisecond,
}
use offveil.Netip.{Addr}
use offveil.Netip.Prefix.{is4}
use offveil.Probe.{
  Class, class_open, class_dns_poison, class_dpi_reset, class_ip_drop, class_timeout,
  class_throttle_suspect, no_class, path_for,
}
use offveil.Probe.Errors.{TlsError, classify_tls_err}

-- Result without its texts.
pub record ProbeResult : Type 0 where
  pub target : Text
  pub class : Class
  pub path : Text
  pub ok : Bool
  pub confidence : ℕ
  pub took : ℕ

-- How the resolver answered: a known censorship answer, another error with its lower case text, or addresses.
pub data Resolution : Type 0 where
  known_poison : Resolution
  failed : Text → Resolution
  answered : List Addr → Resolution

-- One dial with its handshake.
pub data Dial : Type 0 where
  handshake : ℕ → Dial
  refused : TlsError → Dial

-- What the network answers of a host: the system resolver's known censorship answer, the resolver, which
-- answers are known ones, the dials, the HTTP check if there is one, and how long the probe took.
pub record World : Type 0 where
  pub system_poisoned : Text → Bool
  pub resolve : Text → Resolution
  pub is_poison : Addr → Bool
  pub dial : Text → Addr → Dial
  pub http_head : Text → Option Bool
  pub took_of : Text → ℕ

abbrev pub throttle_threshold : ℕ
throttle_threshold = 2500 * millisecond

-- ThrottleCutoff.
abbrev pub throttle_cutoff : ℕ → ℕ
throttle_cutoff control =
    if ltb throttle_threshold (3 * control) then 3 * control else throttle_threshold

abbrev first_ipv4 : ℕ → List Addr → List Addr
first_ipv4 n [] = []
first_ipv4 zero (a ∷ more) = []
first_ipv4 (suc n) (a ∷ more) = if is4 a then a ∷ first_ipv4 n more else first_ipv4 (suc n) more

abbrev or_first : List Addr → List Addr → List Addr
or_first (a ∷ more) [] = a ∷ []
or_first addrs picked = picked

-- pickDialIPs, for a positive `max`.
unfoldable pub pick_dial_ips : List Addr → ℕ → List Addr
pick_dial_ips addrs max = or_first addrs (first_ipv4 max addrs)

abbrev is_ip_drop : Class → Bool
is_ip_drop class_ip_drop = true
is_ip_drop _ = false

-- What the dials have shown: the class of a handshake, or that of the failures.
pub record Dialed : Type 0 where
  pub opened : Option Class
  pub best : Class
  pub any_dial : Bool

abbrev handshake_class : ℕ → ℕ → Class
handshake_class control took =
    if leb (throttle_cutoff control) took then class_throttle_suspect else class_open

abbrev better : Class → Class → Class
better best class = if is_ip_drop best && not (is_ip_drop class) then class else best

abbrev dialed : ℕ → Dial → Class → Bool → (Class → Bool → Dialed) → Dialed
dialed control (handshake took) best any_dial later = record {
  opened = some (handshake_class control took);
  best = best;
  any_dial = any_dial;
}
dialed control (refused e) best any_dial later =
    later (better best (classify_tls_err e)) (any_dial || not (is_ip_drop (classify_tls_err e)))

-- The loop over the addresses, behind its first round.
unfoldable pub dial_from : ℕ → (Addr → Dial) → Class → Bool → List Addr → Dialed
unfolding classify_tls_err
dial_from control dial best any_dial [] = record { opened = none; best = best; any_dial = any_dial }
dial_from control dial best any_dial (a ∷ more) =
    dialed control (dial a) best any_dial (λ b d. dial_from control dial b d more)

abbrev first_dialed : ℕ → (Addr → Dial) → Dial → List Addr → Dialed
first_dialed control dial (handshake took) more = record {
  opened = some (handshake_class control took);
  best = no_class;
  any_dial = false;
}
first_dialed control dial (refused e) more =
    dial_from control dial (classify_tls_err e) (not (is_ip_drop (classify_tls_err e))) more

-- The loop over the addresses; without one there is no class.
unfoldable pub dial_all : ℕ → (Addr → Dial) → List Addr → Dialed
unfolding dial_from classify_tls_err
dial_all control dial [] = record { opened = none; best = no_class; any_dial = false }
dial_all control dial (a ∷ more) = first_dialed control dial (dial a) more

abbrev result : Text → ℕ → Class → Bool → ℕ → ProbeResult
result host took class ok confidence = record {
  target = host;
  class = class;
  path = path_for class;
  ok = ok;
  confidence = confidence;
  took = took;
}

-- The confidence of an open host, after the HTTP check.
abbrev verified : Option Bool → Bool → ℕ
verified none poisoned = if poisoned then 90 else 85
verified (some false) poisoned = 60
verified (some true) poisoned = if poisoned then 90 else 95

abbrev pub is_mixed : Class → Bool → Bool
is_mixed class any_dial = is_ip_drop class && any_dial

abbrev failure_confidence : Class → ℕ
failure_confidence class_dpi_reset = 85
failure_confidence class_ip_drop = 80
failure_confidence _ = 50

-- The conclusion from the dials.
abbrev pub concluded : Text → ℕ → Bool → Option Bool → Option Class → Class → Bool → ProbeResult
concluded host took poisoned http (some class_throttle_suspect) best any_dial =
    result host took class_throttle_suspect true 70
concluded host took poisoned http (some c) best any_dial =
    result host took class_open true (verified http poisoned)
concluded host took poisoned http none best any_dial =
    if is_mixed best any_dial
    then result host took class_dpi_reset true 75
    else result host took best true (failure_confidence best)

-- The texts of an error that mean that the name does not exist.
unfoldable pub is_nxdomain : Text → Bool
unfolding contains_any
is_nxdomain s =
    contains_any s
      (codes "nxdomain" ∷ codes "no such host" ∷ codes "name error" ∷ codes "rcode name error" ∷ [])

-- The two confidences where the class of the system's answer stays: 0.85 and 0.4.
abbrev base_confidence : Bool → ℕ
base_confidence poisoned = if poisoned then 85 else 40

abbrev pub resolved : World → ℕ → Text → Resolution → ProbeResult
resolved w control host known_poison = result host (w.took_of host) class_dns_poison false 95
resolved w control host (failed message) =
    if is_nxdomain message
    then result host (w.took_of host) class_dns_poison false 80
    else result host (w.took_of host) class_timeout false (base_confidence (w.system_poisoned host))
resolved w control host (answered []) = result host (w.took_of host) class_dns_poison false 75
resolved w control host (answered (a ∷ more)) =
    if any w.is_poison (a ∷ more)
    then result host (w.took_of host) class_dns_poison false 95
    else (let d = dial_all control (w.dial host) (pick_dial_ips (a ∷ more) 2) in
        concluded host (w.took_of host) (w.system_poisoned host) (w.http_head host) d.opened d.best
          d.any_dial)

-- Target; `control` is the time of the control host's handshake, or zero.
unfoldable pub target_probe : World → ℕ → Text → ProbeResult
unfolding is_nxdomain dial_all pick_dial_ips
target_probe w control host =
    if is_empty host
    then result host (w.took_of host) class_timeout false 40
    else resolved w control host (w.resolve host)
