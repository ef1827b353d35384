-- ===== src/Probe.antt =====
-- offveil-core/internal/probe: what a probe concludes about a host, and the path that follows.
pub mod Errors
pub mod Target
pub mod Session
use offveil.Prelude.{
  ℕ, Bool, true, false, ◌&&◌, ◌||◌, List, [], ◌∷◌, Text, codes, ltb, if◌then◌else◌, text_eq,
}

-- Class, and the empty class.
pub data Class : Type 0 where
  class_open class_dns_poison class_dpi_reset class_ip_drop class_timeout class_throttle_suspect
        no_class :
      Class

abbrev pub direct : Text
direct = codes "direct"

abbrev pub desync : Text
desync = codes "desync"

abbrev pub tunnel : Text
tunnel = codes "tunnel"

-- PathFor.
abbrev pub path_for : Class → Text
path_for class_open = direct
path_for class_ip_drop = tunnel
path_for class_throttle_suspect = tunnel
path_for _ = desync

unfoldable pub path_rank : Text → ℕ
unfolding text_eq
path_rank path =
    if text_eq path tunnel
    then 3
    else if text_eq path desync
    then 2
    else if text_eq path direct
    then 1
    else 0

abbrev pub is_forced : Class → Bool
is_forced class_ip_drop = true
is_forced class_throttle_suspect = true
is_forced _ = false

-- CanaryPath.
unfoldable pub canary_path : Class → Text → Text
unfolding text_eq
canary_path class path = if is_forced class || text_eq path tunnel then tunnel else desync

-- PreferPath.
unfoldable pub prefer_path : Text → Text → Text
unfolding path_rank
prefer_path a b = if ltb (path_rank a) (path_rank b) then b else a
