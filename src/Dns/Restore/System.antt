-- ===== src/Dns/Restore/System.antt =====
-- The undo record of offveil-core/internal/dns/restore.go and what networksetup does to a service: the
-- interface systemDNS of system.go. A write that is refused changes nothing.
use offveil.Prelude.{ℕ, Bool, Option, none, some, List, Text, is_empty, if◌then◌else◌, text_eq}
use offveil.Netip.{Addr, v4}
use offveil.Dns.Services.{Service}

-- ServiceDNS.
pub record ServiceDns : Type 0 where
  pub name : Text
  pub servers : List Addr
  pub dhcp : Bool

-- RestoreSnapshot, with the fields of this platform.
pub record Snapshot : Type 0 where
  pub version : ℕ
  pub stub_ip : Addr
  pub services : List ServiceDns

-- The servers of each service, with none where DHCP provides them, and the file of the record.
pub record Machine : Type 0 where
  pub settings : Text → List Addr
  pub snapshot : Option Snapshot

-- What is listed, and what is refused.
pub record NetworkSetup : Type 0 where
  pub services : Option (List Service)
  pub get_fails : Text → Bool
  pub set_fails : Text → Bool
  pub load_fails : Bool
  pub save_fails : Bool
  pub clear_fails : Bool

-- stubDNSIP.
abbrev pub stub_dns_ip : Addr
stub_dns_ip = v4 2130706433

-- GetDNS of systemDNS.
abbrev pub get_dns : NetworkSetup → Text → Machine → Option (List Addr × Bool)
get_dns w name m =
    if w.get_fails name then none else some (m.settings name, is_empty (m.settings name))

-- SetDNS of systemDNS.
abbrev pub set_dns : NetworkSetup → Text → List Addr → Machine → Option Machine
set_dns w name servers m =
    if w.set_fails name
    then none
    else some (record m { settings = λ n. if text_eq n name then servers else m.settings n })

-- SaveRestoreSnapshot.
abbrev pub save_snapshot : NetworkSetup → Snapshot → Machine → Option Machine
save_snapshot w snap m =
    if w.save_fails then none else some (record m { snapshot = some (record snap { version = 1 }) })

-- LoadRestoreSnapshot.
abbrev pub load_snapshot : NetworkSetup → Machine → Option (Option Snapshot)
load_snapshot w m = if w.load_fails then none else some m.snapshot

-- ClearRestoreSnapshot.
abbrev pub clear_snapshot : NetworkSetup → Machine → Option Machine
clear_snapshot w m = if w.clear_fails then none else some (record m { snapshot = none })
