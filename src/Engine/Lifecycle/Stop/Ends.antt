-- ===== src/Engine/Lifecycle/Stop/Ends.antt =====
-- What a stop leaves behind.
use offveil.Prelude.{suc, ◌<◌, ◌≡◌, refl, ◌∙◌, true, false, none, arith, Bool-cases, inl, inr, ap}
use offveil.Engine.Signals.{stopping}
use offveil.Engine.Core.{Engine, is_running}
use offveil.Engine.Status.{status_update, publish, observe_sessions, refresh_if_idle}
use offveil.Engine.Status.Frame.{
  publish-Kept, status_update-Kept, note_if_running-Kept, observe_sessions-Kept,
}
use offveil.Engine.Lifecycle.{cancel_session, clean_up}
use offveil.Engine.Lifecycle.Stop.{
  announce_stop, stop_locked, stop, crash_cleanup, close_all, freeze, is_stopped, new_request,
  end_session,
}
use offveil.Engine.Lifecycle.Sessions.{
  IsOff, publish-IsOff, status_update-IsOff, clean_up-Cleaned, clean_up-hooks, clean_up-called,
  all_called,
}
use offveil.Engine.Status.Reasons.{refresh-running}

-- After the hooks every session is dropped.
close_all-IsOff :
    (e : Engine)
    → IsOff (close_all (clean_up e))
      × ((close_all (clean_up e)).session_generation ≡ e.session_generation)
close_all-IsOff e = (
  record {
    protection = refl;
    state = refl;
    dns = refl;
    des = refl;
    tun = refl;
    hooks = clean_up-hooks e;
  },
  (clean_up-Cleaned e).session_generation,
)

freeze-generation : (e : Engine) → (freeze e).session_generation ≡ e.session_generation
freeze-generation e = elim (Bool-cases e.protection) [
  | inl h ↦ simp h (status_update-Kept e).session_generation
  | inr h ↦ simp h
]

announced : (e : Engine) → (announce_stop e).session_generation ≡ suc e.session_generation
unfolding announce_stop
announced e =
    (publish-Kept (cancel_session (record (freeze e) { state = stopping }))).session_generation
    ∙ ap suc (freeze-generation e)

freeze-request : (e : Engine) → (freeze e).lifecycle_generation ≡ e.lifecycle_generation
freeze-request e = elim (Bool-cases e.protection) [
  | inl h ↦ simp h (status_update-Kept e).lifecycle_generation
  | inr h ↦ simp h
]

announced_request : (e : Engine) → (announce_stop e).lifecycle_generation ≡ e.lifecycle_generation
unfolding announce_stop
announced_request e =
    (publish-Kept (cancel_session (record (freeze e) { state = stopping }))).lifecycle_generation
    ∙ freeze-request e

pub end_session-IsOff :
    (e : Engine)
    → IsOff (end_session e)
      × ((end_session e).session_generation ≡ suc e.session_generation)
      × ((end_session e).lifecycle_generation ≡ e.lifecycle_generation)
unfolding end_session
end_session-IsOff e =
    let e1 = announce_stop e in
    let e2 = close_all (clean_up e1) in
    let (off, same) = close_all-IsOff e1 in
    (
      publish-IsOff (status_update e2) (status_update-IsOff e2 off),
      (publish-Kept (status_update e2)).session_generation
          ∙ (status_update-Kept e2).session_generation
          ∙ same
          ∙ announced e,
      (publish-Kept (status_update e2)).lifecycle_generation
          ∙ (status_update-Kept e2).lifecycle_generation
          ∙ (clean_up-Cleaned e1).lifecycle_generation
          ∙ announced_request e,
    )

crash-IsOff :
    (e : Engine)
    → IsOff (crash_cleanup e) × ((crash_cleanup e).session_generation ≡ suc e.session_generation)
unfolding crash_cleanup
crash-IsOff e =
    let e1 = cancel_session (new_request e) in
    (
      record {
        protection = refl;
        state = refl;
        dns = refl;
        des = refl;
        tun = refl;
        hooks = clean_up-hooks e1;
      },
      (clean_up-Cleaned e1).session_generation,
    )

freeze-hooks : (e : Engine) → ((freeze e).hooks ≡ e.hooks) × ((freeze e).called ≡ e.called)
freeze-hooks e = elim (Bool-cases e.protection) [
  | inl h ↦ (simp h (status_update-Kept e).hooks, simp h (status_update-Kept e).called)
  | inr h ↦ (simp h, simp h)
]

announced-hooks :
    (e : Engine) → ((announce_stop e).hooks ≡ e.hooks) × ((announce_stop e).called ≡ e.called)
unfolding announce_stop
announced-hooks e =
    let kept = publish-Kept (cancel_session (record (freeze e) { state = stopping })) in
    let (hooks, called) = freeze-hooks e in (kept.hooks ∙ hooks, kept.called ∙ called)

end_session-called : (e : Engine) → (end_session e).called ≡ all_called e.hooks e.called
unfolding end_session
end_session-called e =
    let e1 = announce_stop e in
    let e2 = close_all (clean_up e1) in
    let (hooks, called) = announced-hooks e in
    (publish-Kept (status_update e2)).called
    ∙ (status_update-Kept e2).called
    ∙ clean_up-called e1
    ∙ ap (λ hs. all_called hs e1.called) hooks
    ∙ ap (all_called e.hooks) called

crash-called : (e : Engine) → (crash_cleanup e).called ≡ all_called e.hooks e.called
unfolding crash_cleanup
crash-called e = clean_up-called (cancel_session (new_request e))

-- A stop of an engine that is not stopped succeeds from every state: every hook that was registered was
-- called, the newest first, none is left, the engine has no resolver, helper or gateway, protection is
-- off, and the generation is new. A crash cleanup does the same without a condition.
pub stop-IsOff :
    (e : Engine)
    → is_stopped e.state ≡ false
    → (IsOff (stop e).0
        × ((stop e).0.called ≡ all_called e.hooks e.called)
        × ((stop e).1 ≡ none)
        × (e.session_generation < (stop e).0.session_generation))
      × (IsOff (crash_cleanup e)
          × ((crash_cleanup e).called ≡ all_called e.hooks e.called)
          × (e.session_generation < (crash_cleanup e).session_generation))
unfolding stop stop_locked
stop-IsOff e h =
    let (off, new, request) = end_session-IsOff (new_request e) in
    let (crashed, newer) = crash-IsOff e in
    (
      simp h (off, end_session-called (new_request e), refl, ground (arith, new)),
      (crashed, crash-called e, ground (arith, newer)),
    )

frozen : (e : Engine) → e.protection ≡ true → (freeze e).protection ≡ true
frozen e h = simp h ((status_update-Kept e).protection ∙ h)

idle :
    (e : Engine)
    → e.protection ≡ true
    → e.strategy_switching ≡ false
    → is_running (refresh_if_idle e).state ≡ true
unfolding refresh_if_idle
idle e p s = simp (p, s, refresh-running e p)

refreshed :
    (e : Engine)
    → e.protection ≡ true
    → e.strategy_switching ≡ false
    → is_running (status_update e).state ≡ true
unfolding status_update
refreshed e p s =
    let seen = observe_sessions e in
    let k = observe_sessions-Kept e in
    (note_if_running-Kept (refresh_if_idle seen)).running
      (idle seen (k.protection ∙ p) (k.strategy_switching ∙ s))

-- The state `stopping` is set before the engine publishes its status for the hooks, but publishing
-- under a protection that is still on sets it back: the snapshot says active or degraded.
pub stop_hides : (e : Engine) → e.protection ≡ true → is_running (announce_stop e).state ≡ true
unfolding announce_stop publish
stop_hides e p =
    let e1 = cancel_session (record (freeze e) { state = stopping }) in
    (status_update-Kept (status_update e1)).running (refreshed e1 (frozen e p) refl)
