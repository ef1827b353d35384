-- ===== src/Dns/Restore/Tests.antt =====
-- Settings that are steered, lost and given back.
use offveil.Prelude.{
  ◌≡◌, refl, true, false, none, some, List, [], ◌∷◌, Text, codes, text_eq, if◌then◌else◌,
}
use offveil.Netip.{v4}
use offveil.Dns.Services.{Service, skip_network_service}
use offveil.Dns.Restore
use offveil.Dns.Restore.Apply
use offveil.Dns.Restore.System.{Machine, NetworkSetup}
use offveil.Dns.Restore.Recoverable.{record_of, IsKept}
use offveil.Dns.Restore.Histories.{
  Step, applying, restoring, run, run_step, history-IsKept, restore-back,
}

abbrev service : Text → Service
service n = record {
  name = n;
  hardware_port = codes "Ethernet";
  device = codes "en1";
  disabled = false;
}

abbrev before : Machine
before = record {
  settings = λ n. if text_eq n (codes "Wi-Fi") then v4 3232235777 ∷ [] else [];
  snapshot = none;
}

abbrev willing : NetworkSetup
willing = record {
  services = some (service (codes "Wi-Fi") ∷ service (codes "LAN") ∷ []);
  get_fails = λ n. false;
  set_fails = λ n. false;
  load_fails = false;
  save_fails = false;
  clear_fails = false;
}

abbrev refusing : NetworkSetup
refusing = record willing { set_fails = λ n. text_eq n (codes "Wi-Fi") }

-- The first restore is refused for one of the services.
abbrev troubled : List Step
troubled = applying willing willing [] ∷ restoring refusing true false ∷ []

still_steered : (run troubled before).settings (codes "Wi-Fi") ≡ v4 2130706433 ∷ []
unfolding run run_step Apply.apply_system_dns Restore.restore_system_dns skip_network_service
    text_eq
still_steered = refl

history-IsKept_example : IsKept before.settings (run troubled before)
history-IsKept_example = history-IsKept troubled before refl

clean : (Restore.restore_system_dns willing true false (run troubled before)).error ≡ none
unfolding run run_step Apply.apply_system_dns Restore.restore_system_dns skip_network_service
    text_eq
clean = refl

own : Restore.only_offveil_stub (before.settings (codes "Wi-Fi")) ≡ false
unfolding Restore.only_offveil_stub text_eq
own = refl

restore-back_example :
    (record_of
        (Restore.restore_system_dns willing true false (run troubled before)).machine.snapshot
      ≡ [])
    × ((Restore.restore_system_dns willing true false (run troubled before)).machine.settings
          (codes "Wi-Fi")
        ≡ before.settings (codes "Wi-Fi"))
restore-back_example =
    restore-back troubled before willing true false (codes "Wi-Fi") refl clean own
