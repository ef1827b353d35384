-- ===== src/Engine/Lifecycle/Sessions.antt =====
-- What a start and a stop leave behind.
use offveil.Prelude.{◌≡◌, refl, ◌∙◌, false, List, [], ◌∷◌, none, arith, ap}
use offveil.Engine.Signals.{stopped}
use offveil.Engine.Core.{Engine, Hook}
use offveil.Engine.Status.{
  status_update, publish, observe_sessions, refresh_if_idle, note_if_running,
}
use offveil.Engine.Status.Frame.{status_update-Kept}
use offveil.Engine.Layers.{stop_layer}
use offveil.Engine.Lifecycle.{run_hook, run_hooks, clean_up, mark_failed, wipe, fail_start}

-- Nothing runs.
pub record IsOff (e : Engine) : Type 0 where
  pub protection : e.protection ≡ false
  pub state : e.state ≡ stopped
  pub dns : e.dns ≡ none
  pub des : e.des ≡ none
  pub tun : e.tun ≡ none
  pub hooks : e.hooks ≡ []

-- Without protection the status only observes the sessions.
off-status : (e : Engine) → e.protection ≡ false → status_update e ≡ observe_sessions e
unfolding status_update refresh_if_idle note_if_running observe_sessions
off-status e h = simp h

observe_sessions-IsOff : (e : Engine) → IsOff e → IsOff (observe_sessions e)
unfolding observe_sessions
observe_sessions-IsOff e h = ground (arith, h)

pub status_update-IsOff : (e : Engine) → IsOff e → IsOff (status_update e)
status_update-IsOff e h = rw (off-status e h.protection) (observe_sessions-IsOff e h)

pub publish-IsOff : (e : Engine) → IsOff e → IsOff (publish e)
unfolding publish
publish-IsOff e h = status_update-IsOff (status_update e) (status_update-IsOff e h)

-- The hooks close sessions of the layer and nothing else.
pub record Cleaned (e f : Engine) : Type 0 where
  pub session_generation : f.session_generation ≡ e.session_generation
  pub lifecycle_generation : f.lifecycle_generation ≡ e.lifecycle_generation
  pub protection : f.protection ≡ e.protection
  pub state : f.state ≡ e.state

run_hook-Cleaned : (h : Hook) (e : Engine) → Cleaned e (run_hook h e)
unfolding stop_layer
run_hook-Cleaned h e = ground arith

run_hooks-Cleaned : (hooks : List Hook) (e : Engine) → Cleaned e (run_hooks hooks e)
unfolding run_hooks
run_hooks-Cleaned [] e = ground arith
run_hooks-Cleaned (h ∷ hooks) e =
    let rest = run_hooks-Cleaned hooks (run_hook h e) in
    record {
      session_generation = rest.session_generation ∙ (run_hook-Cleaned h e).session_generation;
      lifecycle_generation =
          rest.lifecycle_generation ∙ (run_hook-Cleaned h e).lifecycle_generation;
      protection = rest.protection ∙ (run_hook-Cleaned h e).protection;
      state = rest.state ∙ (run_hook-Cleaned h e).state;
    }

-- The log of the hooks behind a run of the registry: each of `hooks` was called, in their order.
abbrev pub all_called : List Hook → List Hook → List Hook
all_called [] log = log
all_called (h ∷ hooks) log = all_called hooks (h ∷ log)

run_hook-called : (h : Hook) (e : Engine) → (run_hook h e).called ≡ h ∷ e.called
unfolding stop_layer
run_hook-called h e = ground arith

run_hooks-called :
    (hooks : List Hook) (e : Engine) → (run_hooks hooks e).called ≡ all_called hooks e.called
unfolding run_hooks
run_hooks-called [] e = refl
run_hooks-called (h ∷ hooks) e =
    run_hooks-called hooks (run_hook h e) ∙ ap (all_called hooks) (run_hook-called h e)

pub clean_up-called : (e : Engine) → (clean_up e).called ≡ all_called e.hooks e.called
unfolding clean_up
clean_up-called e = run_hooks-called e.hooks e

pub clean_up-Cleaned : (e : Engine) → Cleaned e (clean_up e)
unfolding clean_up
clean_up-Cleaned e =
    let rest = run_hooks-Cleaned e.hooks e in
    record {
      session_generation = rest.session_generation;
      lifecycle_generation = rest.lifecycle_generation;
      protection = rest.protection;
      state = rest.state;
    }

observe-state : (e : Engine) → (observe_sessions e).state ≡ e.state
unfolding observe_sessions
observe-state e = refl

off-state : (e : Engine) → e.protection ≡ false → (status_update e).state ≡ e.state
off-state e h = ap (λ f. f.state) (off-status e h) ∙ observe-state e

pub clean_up-hooks : (e : Engine) → (clean_up e).hooks ≡ []
unfolding clean_up
clean_up-hooks e = refl

wipe-IsOff : (e : Engine) → e.protection ≡ false → e.state ≡ stopped → e.hooks ≡ [] → IsOff (wipe e)
unfolding wipe stop_layer
wipe-IsOff e p s h = record {
  protection = p;
  state = s;
  dns = refl;
  des = refl;
  tun = refl;
  hooks = h;
}

wipe-generation : (e : Engine) → (wipe e).session_generation ≡ e.session_generation
unfolding wipe stop_layer
wipe-generation e = refl

mark_failed-off :
    (e : Engine)
    → ((mark_failed e).protection ≡ false)
      × ((mark_failed e).state ≡ stopped)
      × ((mark_failed e).session_generation ≡ e.session_generation)
unfolding mark_failed
mark_failed-off e = (refl, refl, refl)

-- A failed start leaves the engine off, in the session that it began.
pub fail_start-IsOff :
    (e : Engine) → IsOff (fail_start e) × ((fail_start e).session_generation ≡ e.session_generation)
unfolding fail_start
fail_start-IsOff e =
    let f = mark_failed e in
    let (off, state, same) = mark_failed-off e in
    let seen = status_update-Kept f in
    let g = status_update f in
    let clean = clean_up-Cleaned g in
    let h = clean_up g in
    (
      status_update-IsOff (wipe h) (
          wipe-IsOff h (clean.protection ∙ seen.protection ∙ off)
            (clean.state ∙ off-state f off ∙ state) (clean_up-hooks g)),
      (status_update-Kept (wipe h)).session_generation
          ∙ wipe-generation h
          ∙ clean.session_generation
          ∙ seen.session_generation
          ∙ same,
    )
