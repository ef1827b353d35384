-- ===== src/Dns/Restore/Apply.antt =====
-- applySystemDNSWith and leftoverStubPresent of offveil-core/internal/dns/system.go.
use offveil.Prelude.{
  ℕ, suc, Bool, true, false, not, ◌&&◌, ◌||◌, Option, none, some, List, [], ◌∷◌, Text, is_empty,
  length, ltb, if◌then◌else◌, ◌==◌,
}
use offveil.Netip.{Addr}
use offveil.Dns.Services.{Service, parse_ip, filter_dns_targets}
use offveil.Dns.Restore.System.{
  ServiceDns, Snapshot, Machine, NetworkSetup, get_dns, set_dns, save_snapshot, load_snapshot,
  stub_dns_ip,
}
use offveil.Dns.Restore.{
  Error, first_error, only_loopback_stub, give_back, flush_leftover_stub_dns, Outcome, restore_from,
  invalid_stub_ip, read_failed, still_pending, list_failed, nothing_to_steer, save_failed,
  none_steered, snapshot_failed, set_failed, no_detail,
}

abbrev pub recorded :
    Service → Option (List Addr × Bool) → Option (List ServiceDns) → Option (List ServiceDns)
recorded s (some (servers, dhcp)) (some rest) =
    some (record { name = s.name; servers = servers; dhcp = dhcp || is_empty servers } ∷ rest)
recorded s _ _ = none

-- The snapshot of applySystemDNSWith: nothing where the settings of a service cannot be read.
unfoldable pub snapshot_of : NetworkSetup → List Service → Machine → Option (List ServiceDns)
snapshot_of w [] m = some []
snapshot_of w (s ∷ ss) m = recorded s (get_dns w s.name m) (snapshot_of w ss m)

pub record Applied : Type 0 where
  pub machine : Machine
  pub applied : ℕ
  pub first : Option Error

abbrev pub steered : Text → Option Machine → Applied → Applied
steered name none a = record a { first = first_error a.first (set_failed name) }
steered name (some m) a = record a { machine = m; applied = suc a.applied }

-- The loop of applySystemDNSWith that points the services at the resolver.
unfoldable pub steer : NetworkSetup → Addr → List ServiceDns → Applied → Applied
steer w stub [] a = a
steer w stub (s ∷ ss) a =
    steer w stub ss (steered s.name (set_dns w s.name (stub ∷ []) a.machine) a)

abbrev pub turned_back : Option Error → Outcome → Outcome
turned_back none o = record o { error = some none_steered }
turned_back (some e) o = record o { error = some e }

-- The end of applySystemDNSWith: where nothing could be steered, it is undone at once.
abbrev pub finish_apply : NetworkSetup → Applied → Outcome
finish_apply w a =
    if a.applied == 0
    then turned_back a.first (restore_from w true false (load_snapshot w a.machine) a.machine)
    else record { machine = a.machine; detail = no_detail; error = none }

abbrev pub refused : Error → Machine → Outcome
refused e m = record { machine = m; detail = no_detail; error = some e }

abbrev pub apply_saved :
    NetworkSetup → NetworkSetup → Addr → List ServiceDns → Option Machine → Machine → Outcome
apply_saved w later stub services none m = refused save_failed m
apply_saved w later stub services (some n) m =
    finish_apply later (steer w stub services (record { machine = n; applied = 0; first = none }))

abbrev pub apply_read :
    NetworkSetup → NetworkSetup → Addr → Option (List ServiceDns) → Machine → Outcome
apply_read w later stub none m = refused snapshot_failed m
apply_read w later stub (some services) m =
    apply_saved w later stub services
      (save_snapshot w (record { version = 0; stub_ip = stub; services = services }) m) m

abbrev pub apply_listed :
    NetworkSetup → NetworkSetup → Addr → Option (List Service) → Machine → Outcome
apply_listed w later stub none m = refused list_failed m
apply_listed w later stub (some all_services) m =
    let targets = filter_dns_targets all_services in
    if is_empty targets
    then refused nothing_to_steer m
    else apply_read w later stub (snapshot_of w targets m) m

abbrev pub is_pending : Option Snapshot → Bool
is_pending none = false
is_pending (some snap) = ltb 0 (length snap.services)

abbrev pub apply_loaded :
    NetworkSetup → NetworkSetup → Addr → Option (Option Snapshot) → Machine → Outcome
apply_loaded w later stub none m = refused read_failed m
apply_loaded w later stub (some previous) m =
    if is_pending previous then refused still_pending m else apply_listed w later stub w.services m

abbrev pub apply_at : NetworkSetup → NetworkSetup → Option Addr → Machine → Outcome
apply_at w later none m = refused invalid_stub_ip m
apply_at w later (some stub) m = apply_loaded w later stub (load_snapshot w m) m

-- applySystemDNSWith; `later` is the world of the restore that undoes it.
unfoldable pub apply_system_dns : NetworkSetup → NetworkSetup → Text → Machine → Outcome
unfolding snapshot_of steer give_back flush_leftover_stub_dns parse_ip
apply_system_dns w later stub m =
    apply_at w later (if is_empty stub then some stub_dns_ip else parse_ip stub) m

abbrev has_loopback : Option (List Addr × Bool) → Bool
has_loopback none = false
has_loopback (some (servers, dhcp)) = not dhcp && only_loopback_stub servers

abbrev pub steers_loopback : NetworkSetup → Text → Machine → Bool
steers_loopback w name m = has_loopback (get_dns w name m)

abbrev pub any_left : NetworkSetup → List Service → Machine → Bool
any_left w [] m = false
any_left w (s ∷ ss) m = steers_loopback w s.name m || any_left w ss m

abbrev pub left_among : NetworkSetup → Option (List Service) → Machine → Bool
left_among w none m = false
left_among w (some all_services) m = any_left w (filter_dns_targets all_services) m

abbrev pub recorded_pending : Option (Option Snapshot) → Bool
recorded_pending none = false
recorded_pending (some previous) = is_pending previous

-- leftoverStubPresent.
unfoldable pub leftover_stub_present : NetworkSetup → Machine → Bool
leftover_stub_present w m = recorded_pending (load_snapshot w m) || left_among w w.services m
