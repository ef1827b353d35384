-- ===== src/Tunnel/Startup/Tests.antt =====
-- A start whose adapter is busy twice, and one with another error.
use offveil.Prelude.{◌≡◌, ◌≤◌, refl, true, false, some, codes, text_eq, leb, if◌then◌else◌}
use offveil.Tunnel.Startup.{
  came_up, launch_fails, running, failing, Rounds, Started, start_with_tun_retry,
  start_with_tun_retry_ends,
}

abbrev busy_twice : Rounds
busy_twice = record {
  over_before = λ n. false;
  launch = λ n. if leb 3 n then came_up else launch_fails (some (codes "adapter_busy"));
  over_after = λ n. false;
  over_in_pause = λ n. false;
}

third : start_with_tun_retry true busy_twice ≡ some (record { outcome = running; attempts = 3 })
unfolding start_with_tun_retry text_eq
third = refl

disabled :
    start_with_tun_retry false busy_twice
    ≡ some (record { outcome = failing (some (codes "adapter_busy")); attempts = 1 })
unfolding start_with_tun_retry
disabled = refl

start_with_tun_retry_ends_example :
    (s : Started) × (start_with_tun_retry false busy_twice ≡ some s)
    × (s.attempts ≤ 3)
    × (false ≡ false → s.attempts ≤ 1)
start_with_tun_retry_ends_example = start_with_tun_retry_ends false busy_twice
