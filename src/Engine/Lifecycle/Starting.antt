-- ===== src/Engine/Lifecycle/Starting.antt =====
-- How a start ends.
use offveil.Prelude.{ℕ, ◌<◌, ◌≡◌, Bool, true, Option, none, some, ◌⊎◌}
use offveil.Engine.Core.{Engine, current_session}
use offveil.Engine.Lifecycle.{StartError}
use offveil.Engine.Lifecycle.Stages.{Layered}
use offveil.Engine.Lifecycle.Sessions.{IsOff}

-- A session that runs with a resolver and a layer.
pub record IsOn (resolver : Option Bool) (e : Engine) : Type 0 where
  pub current : current_session e.session_generation e ≡ true
  pub dns : e.dns ≡ resolver
  pub layered : Layered e.layer

-- A start ends in a running session without an error, or off with one; its generation is new.
pub record Started (resolver : Option Bool) (before : ℕ) (r : Engine × Option StartError)
    : Type 0 where
  pub ends : ((r.1 ≡ none) × IsOn resolver r.0) ⊎ ((x : StartError) × (r.1 ≡ some x) × IsOff r.0)
  pub newer : before < r.0.session_generation
