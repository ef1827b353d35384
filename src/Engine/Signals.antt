-- ===== src/Engine/Signals.antt =====
-- The enumerations that the engine's parts share: FailClass of offveil-core/internal/tunnel/types.go
-- and the constants of internal/engine and internal/policy.
use offveil.Prelude.{ℕ, Bool, true, false, ◌||◌, ◌==◌, leb, ◌-◌}

-- tunnel.FailClass.
pub data FailClass : Type 0 where
  fail_ok fail_timeout fail_dial fail_auth fail_probe fail_eof : FailClass
  fail_reset fail_refused fail_certificate fail_config : FailClass

abbrev pub is_ok : FailClass → Bool
is_ok fail_ok = true
is_ok _ = false

-- The class of a check: a probe's class, or "slow".
pub data CheckClass : Type 0 where
  probed : FailClass → CheckClass
  slow : CheckClass

abbrev pub check_ok : CheckClass → Bool
check_ok (probed c) = is_ok c
check_ok slow = false

-- DPINone, DPIPresent, DPIOffline, DPIUnknown.
pub data Dpi : Type 0 where
  dpi_none dpi_present dpi_offline dpi_unknown : Dpi

-- tunnel.PathDesync and tunnel.PathTunnel, the paths of a group.
pub data GroupPath : Type 0 where
  desync_path tunnel_path : GroupPath

-- The empty layer, layerDNS, layerSelective, layerFallback.
pub data Layer : Type 0 where
  no_layer dns_layer selective_layer fallback_layer : Layer

-- State values.
pub data State : Type 0 where
  stopped starting active degraded stopping : State

-- The components that can fail on their own.
pub data Component : Type 0 where
  dns_component desync_component tunnel_component : Component

-- `now.Sub(last) >= interval`; the zero instant lies further back than every interval.
abbrev pub elapsed : ℕ → ℕ → ℕ → Bool
elapsed interval last now = last == 0 || leb interval (now - last)
