-- ===== src/Dns/Restore.antt =====
-- The settings of macOS that are steered to the resolver and given back: the second half of
-- offveil-core/internal/dns/system.go, with the undo record of restore.go; its child Apply has the steering. What networksetup and the
-- file system refuse is an argument; an address is kept parsed.
pub mod System
pub mod Recoverable
pub mod Undone
pub mod Apply
pub mod Steering
pub mod Histories
mod Tests
use offveil.Prelude.{
  ℕ, suc, zero, ◌+◌, Bool, true, false, not, ◌&&◌, ◌||◌, Option, none, some, List, [], ◌∷◌, ◌++◌,
  Text, is_empty, length, ltb, if◌then◌else◌, ◌==◌, all, any,
}
use offveil.Netip.{Addr, v4}
use offveil.Netip.Prefix.{addr_eq, is_loopback}
use offveil.Dns.Services.{Service, parse_ip, filter_dns_targets}
use offveil.Dns.Restore.System.{
  ServiceDns, Snapshot, Machine, NetworkSetup, get_dns, set_dns, save_snapshot, load_snapshot,
  clear_snapshot, stub_dns_ip,
}

-- What applySystemDNSWith and restoreSystemDNSWith report.
pub data Error : Type 0 where
  invalid_stub_ip read_failed still_pending list_failed nothing_to_steer save_failed none_steered
        snapshot_failed clear_failed :
      Error
  set_failed : Text → Error

abbrev pub first_error : Option Error → Error → Option Error
first_error none e = some e
first_error (some f) e = some f

-- onlyLoopbackStub.
abbrev pub only_loopback_stub : List Addr → Bool
only_loopback_stub servers = all is_loopback servers && not (is_empty servers)

-- onlyOffveilStub.
unfoldable pub only_offveil_stub : List Addr → Bool
only_offveil_stub servers = not (is_empty servers) && all (λ a. addr_eq a stub_dns_ip) servers

-- What is left to give back, how much was given back, and the first error.
pub record RestoreProgress : Type 0 where
  pub machine : Machine
  pub pending : List ServiceDns
  pub restored : ℕ
  pub first : Option Error

-- What a service is given: nothing where DHCP provides its servers.
abbrev pub servers_of : ServiceDns → List Addr
servers_of s = if s.dhcp then [] else s.servers

abbrev pub give_one : ServiceDns → Option Machine → RestoreProgress → RestoreProgress
give_one s none p = record p {
  pending = p.pending ++ (s ∷ []);
  first = first_error p.first (set_failed s.name);
}
give_one s (some m) p = record p { machine = m; restored = suc p.restored }

-- The loop of restoreSystemDNSWith over the services of the record.
unfoldable pub give_back : NetworkSetup → List ServiceDns → RestoreProgress → RestoreProgress
give_back w [] p = p
give_back w (s ∷ ss) p = give_back w ss (give_one s (set_dns w s.name (servers_of s) p.machine) p)

-- How many were flushed, and the first error.
pub record Flushed : Type 0 where
  pub machine : Machine
  pub count : ℕ
  pub first : Option Error

abbrev pub emptied : Text → Option Machine → Flushed → Flushed
emptied name none f = record f { first = first_error f.first (set_failed name) }
emptied name (some m) f = record f { machine = m; count = suc f.count }

abbrev pub flush_one : NetworkSetup → Text → Option (List Addr × Bool) → Flushed → Flushed
flush_one w name none f = f
flush_one w name (some (servers, dhcp)) f =
    if dhcp || not (only_offveil_stub servers)
    then f
    else emptied name (set_dns w name [] f.machine) f

-- The loop of flushLeftoverStubDNS.
unfoldable pub flush_each : NetworkSetup → List Service → Flushed → Flushed
flush_each w [] f = f
flush_each w (s ∷ ss) f = flush_each w ss (flush_one w s.name (get_dns w s.name f.machine) f)

abbrev pub flush_listed : NetworkSetup → Option (List Service) → Machine → Flushed
flush_listed w none m = record { machine = m; count = 0; first = some list_failed }
flush_listed w (some all_services) m =
    flush_each w (filter_dns_targets all_services) (record { machine = m; count = 0; first = none })

-- flushLeftoverStubDNS.
unfoldable pub flush_leftover_stub_dns : NetworkSetup → Bool → Bool → Machine → Flushed
unfolding flush_each
flush_leftover_stub_dns w armed stub_up m =
    if not armed && stub_up
    then record { machine = m; count = 0; first = none }
    else flush_listed w w.services m

-- The text that a restore reports.
pub data Detail : Type 0 where
  no_detail restore_pending clean : Detail
  restored_and_flushed : ℕ → ℕ → Detail
  only_restored only_flushed : ℕ → Detail

abbrev pub detail_of : ℕ → ℕ → Detail
detail_of restored flushed =
    if ltb 0 restored && ltb 0 flushed
    then restored_and_flushed restored flushed
    else if ltb 0 restored
    then only_restored restored
    else if ltb 0 flushed
    then only_flushed flushed
    else clean

pub record Outcome : Type 0 where
  pub machine : Machine
  pub detail : Detail
  pub error : Option Error

abbrev pub reported : RestoreProgress → Outcome
reported p = record { machine = p.machine; detail = detail_of p.restored 0; error = p.first }

abbrev retained : Option Machine → RestoreProgress → Outcome
retained none p = record { machine = p.machine; detail = restore_pending; error = some save_failed }
retained (some m) p = reported (record p { machine = m })

abbrev cleared : Option Machine → RestoreProgress → Outcome
cleared none p = reported (record p { first = some clear_failed })
cleared (some m) p = reported (record p { machine = m })

-- The undo record after the loop: what is pending stays in it, or it is removed.
abbrev pub keep_pending : NetworkSetup → Snapshot → RestoreProgress → Outcome
keep_pending w snap p =
    if ltb 0 (length p.pending)
    then retained (save_snapshot w (record snap { services = p.pending }) p.machine) p
    else cleared (clear_snapshot w p.machine) p

abbrev pub unrecorded : Flushed → Outcome
unrecorded f = record { machine = f.machine; detail = detail_of 0 f.count; error = f.first }

abbrev pub restore_from : NetworkSetup → Bool → Bool → Option (Option Snapshot) → Machine → Outcome
restore_from w armed stub_up none m = record {
  machine = m;
  detail = no_detail;
  error = some read_failed;
}
restore_from w armed stub_up (some none) m =
    if armed
    then unrecorded (flush_leftover_stub_dns w armed stub_up m)
    else unrecorded (record { machine = m; count = 0; first = none })
restore_from w armed stub_up (some (some snap)) m =
    keep_pending w snap
      (give_back w snap.services (record { machine = m; pending = []; restored = 0; first = none }))

-- restoreSystemDNSWith. Flushing the cache of the system's resolver changes none of this.
unfoldable pub restore_system_dns : NetworkSetup → Bool → Bool → Machine → Outcome
unfolding give_back flush_leftover_stub_dns
restore_system_dns w armed stub_up m = restore_from w armed stub_up (load_snapshot w m) m
