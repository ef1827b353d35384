-- ===== src/Engine/Repairs/Sections.antt =====
-- What the last section of a repair does to the groups, and what a late one may still do.
use offveil.Prelude.{
  ℕ, ◌≡◌, ◌≢◌, refl, ap, ◌∙◌, Bool, true, false, ◌&&◌, some, arith, Text, text_eq, text_eq_iff,
  List, [], ◌∷◌, if◌then◌else◌,
}
use offveil.Engine.Signals.{FailClass, is_ok, tunnel_component}
use offveil.Engine.Groups.{GroupState, find_group, update_group}
use offveil.Engine.Core.{Engine, record_failure, group_switch_failed}
use offveil.Engine.Status.Frame.{Kept, Kept-trans, refresh-Kept, publish-Kept}
use offveil.Engine.Repairs.{
  release, arrive, come_back, lose, settle, ours, deliver, bring_back, finish_escalate,
  finish_revert, prepare_failed, switch_failed, edit,
}

find-update :
    (id j : Text) (f : GroupState → GroupState) (gs : List GroupState) (g : GroupState)
    → ((h : GroupState) → (f h).id ≡ h.id)
    → find_group id gs ≡ some g
    → find_group j (update_group id f gs) ≡ (if text_eq id j then some (f g) else find_group j gs)
unfolding find_group update_group
find-update id j f [] g keep h = cc
find-update id j f (k ∷ gs) g keep h = ground (
  arith,
  keep k,
  text_eq_iff id j,
  text_eq_iff k.id id,
  text_eq_iff k.id j,
  find-update id j f gs g keep,
)

settle-Kept : (e : Engine) → Kept e (settle e)
settle-Kept e = Kept-trans (refresh-Kept e) (publish-Kept _)

deliver-groups :
    (id : Text) (class : FailClass) (now : ℕ) (e : Engine)
    → ((deliver id class now e).groups ≡ update_group id (arrive class now) e.groups)
      × ((deliver id class now e).group_work ≡ e.group_work)
unfolding deliver
deliver-groups id class now e = (ground arith, ground arith)

bring_back-groups :
    (id : Text) (good : Bool) (e : Engine)
    → ((bring_back id good e).groups ≡ update_group id (if good then come_back else lose) e.groups)
      × ((bring_back id good e).group_work ≡ e.group_work)
unfolding bring_back
bring_back-groups id good e = (ground arith, ground arith)

arrive-id : (class : FailClass) (now : ℕ) (g : GroupState) → (arrive class now g).id ≡ g.id
arrive-id class now g = ground arith

back-id : (good : Bool) (g : GroupState) → ((if good then come_back else lose) g).id ≡ g.id
back-id true g = refl
back-id false g = refl

-- After the probe through the tunnel, in the session and on the gateway that the repair began with,
-- the group stands on the tunnel, with the probe's verdict; no other group changes, and the monitor
-- is free for another repair.
pub finish_escalate-group :
    (generation now session : ℕ) (id j : Text) (class : FailClass) (e : Engine) (g : GroupState)
    → ours generation session e ≡ true
    → find_group id e.groups ≡ some g
    → (find_group j (finish_escalate generation now session id class e).groups
        ≡ (if text_eq id j then some (arrive class now g) else find_group j e.groups))
      × ((finish_escalate generation now session id class e).group_work ≡ false)
unfolding finish_escalate ours
finish_escalate-group generation now session id j class e g c h =
    let kept = settle-Kept (deliver id class now (release e)) in
    let (groups, work) = deliver-groups id class now (release e) in
    rw c (
      ap (find_group j) (kept.groups ∙ groups)
          ∙ find-update id j (arrive class now) e.groups g (arrive-id class now) h,
      kept.group_work ∙ work,
    )

-- The same for the return to the helper: a group that opens there is healthy on it, and one that does
-- not stays where it is and counts as unreachable.
pub finish_revert-group :
    (generation session : ℕ) (id j : Text) (switched : Bool) (class : FailClass) (e : Engine)
    (g : GroupState)
    → ours generation session e ≡ true
    → find_group id e.groups ≡ some g
    → (find_group j (finish_revert generation session id switched class e).groups ≡ (
        if text_eq id j
        then some ((if switched && is_ok class then come_back else lose) g)
        else find_group j e.groups))
      × ((finish_revert generation session id switched class e).group_work ≡ false)
unfolding finish_revert ours
finish_revert-group generation session id j switched class e g c h =
    let kept = settle-Kept (bring_back id (switched && is_ok class) (release e)) in
    let (groups, work) = bring_back-groups id (switched && is_ok class) (release e) in
    rw c (
      ap (find_group j) (kept.groups ∙ groups)
          ∙ find-update id j (if switched && is_ok class then come_back else lose) e.groups g
              (back-id (switched && is_ok class)) h,
      kept.group_work ∙ work,
    )

stale-ours :
    (generation session : ℕ) (e : Engine)
    → generation ≢ e.session_generation
    → ours generation session (release e) ≡ false
unfolding ours
stale-ours generation session e n = ground arith

refused :
    (held : Bool) (id : Text) (e : Engine)
    → ((switch_failed held id e).group_work ≡ false)
      × ((switch_failed held id e).groups
          ≡ (if held then update_group id lose e.groups else e.groups))
unfolding switch_failed
refused true id e =
    let e1 = release (record_failure group_switch_failed (some tunnel_component) id 0 e) in
    let kept = refresh-Kept (edit id lose e1) in (kept.group_work, kept.groups)
refused false id e =
    let e1 = release (record_failure group_switch_failed (some tunnel_component) id 0 e) in
    let kept = refresh-Kept e1 in (kept.group_work, kept.groups)

-- When a repair of an ended session comes back late, its sections behind the preparation of a tunnel that
-- failed, behind the probe through the tunnel and behind the return change nothing but one flag, whatever
-- they found: they clear the mark by which the monitor of the session that runs now keeps itself to one
-- repair. The section behind a refused switch does not look at the session. It clears the mark too, and
-- makes the group unreachable if the engine still holds it.
pub stale_repair :
    (generation now session : ℕ) (id : Text) (switched : Bool) (class : FailClass) (e : Engine)
    → generation ≢ e.session_generation
    → (finish_escalate generation now session id class e ≡ record e { group_work = false })
      × (finish_revert generation session id switched class e ≡ record e { group_work = false })
      × (prepare_failed generation session id e ≡ record e { group_work = false })
      × ((held : Bool)
          → ((switch_failed held id e).group_work ≡ false)
            × ((switch_failed held id e).groups
                ≡ (if held then update_group id lose e.groups else e.groups)))
unfolding finish_escalate finish_revert prepare_failed ours
stale_repair generation now session id switched class e n =
    let stale = stale-ours generation session e n in
    (rw stale, rw stale, rw stale, λ held. refused held id e)
