-- ===== src/Engine/Heal/Requests.antt =====
-- What a heal in flight may do.
use offveil.Prelude.{
  ℕ, suc, ◌≤◌, ◌≡◌, refl, ◌∙◌, true, false, List, [], ◌∷◌, Option, none, some, arith, Text,
  Bool-cases, inl, inr, map, ◌==◌, All, subst, sym,
}
use offveil.Engine.Groups.{GroupState}
use offveil.Engine.Core.{Engine, Egress, Helper, current_session, record_failure, network_rebind}
use offveil.Engine.Status.{refresh_network_status, publish, is_selective}
use offveil.Engine.Status.Frame.{Kept-trans, refresh-Kept, publish-Kept}
use offveil.Engine.Lifecycle.{Startup}
use offveil.Engine.Lifecycle.Sessions.{IsOff, publish-IsOff}
use offveil.Engine.Lifecycle.Stop.{stop, stop_locked, is_stopped, new_request, end_session}
use offveil.Engine.Lifecycle.Stop.Ends.{end_session-IsOff}
use offveil.Engine.Heal.{
  HealReason, nothing, Rebind, is_wanted, begin_heal, decide_heal, restart_heal, soft_rebind,
  adopt_network, rebind_helper, same_interface, can_rebind, forget, move_interface, rebind_layer,
}

old_request :
    (generation session now : ℕ) (w : Startup) (e : Engine)
    → (generation == e.lifecycle_generation) ≡ false
    → restart_heal generation session now w e ≡ publish (record e { healing = false })
unfolding restart_heal
old_request generation session now w e h = simp h

healed-IsOff : (e : Engine) → IsOff e → IsOff (record e { healing = false })
healed-IsOff e h = ground (arith, h)

stop-end : (e : Engine) → is_stopped e.state ≡ false → stop e ≡ (end_session (new_request e), none)
unfolding stop stop_locked
stop-end e h = simp h

unwanted :
    (generation session now : ℕ) (reason : HealReason) (fp : Text) (r : Rebind) (e : Engine)
    → (generation == e.lifecycle_generation) ≡ false
    → (begin_heal generation session now e ≡ none)
      × (decide_heal generation session reason fp now r e ≡ (e, nothing))
unfolding begin_heal decide_heal is_wanted
unwanted generation session now reason fp r e h = (simp h, simp h)

-- A stop is never undone by a heal that began before it: whichever section of the heal comes next,
-- the first does not begin, the second leaves the engine as the stop left it, and the last does not
-- start a session but leaves the engine off.
pub stop_wins :
    (generation session now : ℕ) (reason : HealReason) (fp : Text) (r : Rebind) (w : Startup)
    (e : Engine)
    → is_stopped e.state ≡ false
    → generation ≤ e.lifecycle_generation
    → let f = (stop e).0 in
      (begin_heal generation session now f ≡ none)
      × (decide_heal generation session reason fp now r f ≡ (f, nothing))
      × IsOff (restart_heal generation session now w f)
stop_wins generation session now reason fp r w e running old =
    let f = end_session (new_request e) in
    let (off, new, request) = end_session-IsOff (new_request e) in
    let past : (generation == f.lifecycle_generation) ≡ false = ground (arith, request, old) in
    let (no_begin, no_change) = unwanted generation session now reason fp r f past in
    simp (stop-end e running) (
      no_begin,
      no_change,
      subst IsOff (sym (old_request generation session now w f past))
          (publish-IsOff (record f { healing = false }) (healed-IsOff f off)),
    )

-- A group that a new network is measured for afresh.
abbrev pub Fresh : GroupState → Type 0
Fresh g = (g.failures ≡ 0) × (g.unreachable ≡ false)

forgotten : (gs : List GroupState) → All Fresh (map forget gs)
forgotten [] = tt
forgotten (g ∷ gs) = ((refl, refl), forgotten gs)

-- A rebind keeps what carries the traffic.
pub record Rebound (fp : Text) (e f : Engine) : Type 0 where
  pub session_generation : f.session_generation ≡ e.session_generation
  pub current :
      current_session e.session_generation e ≡ true → current_session e.session_generation f ≡ true
  pub dns : f.dns ≡ e.dns
  pub tun : f.tun ≡ e.tun
  pub layer : f.layer ≡ e.layer
  pub fingerprint : f.fingerprint ≡ fp
  pub measure : (f.reclassify ≡ true) × (f.last_path_check ≡ 0)
  pub groups : All Fresh f.groups

-- What comes before the adoption.
record Prepared (e f : Engine) : Type 0 where
  session_generation : f.session_generation ≡ e.session_generation
  protection : f.protection ≡ e.protection
  state : f.state ≡ e.state
  dns : f.dns ≡ e.dns
  tun : f.tun ≡ e.tun
  layer : f.layer ≡ e.layer

adopted :
    (fp : Text) (now : ℕ) (e f : Engine) → Prepared e f → Rebound fp e (adopt_network fp now f)
unfolding adopt_network
adopted fp now e f p =
    let f1 = record (record_failure network_rebind none [] 0 f) {
      fingerprint = fp;
      reclassify = true;
      last_path_check = 0;
      groups = map forget f.groups;
      last_heal_at = now;
      heal_count = suc f.heal_count;
    } in
    let k = Kept-trans (refresh-Kept f1) (publish-Kept (refresh_network_status f1)) in
    record {
      session_generation = k.session_generation ∙ p.session_generation;
      current = λ c. ground (
        arith, c, k.session_generation, p.session_generation, k.protection, p.protection, p.state,
        k.running,
      );
      dns = k.dns ∙ p.dns;
      tun = k.tun ∙ p.tun;
      layer = k.layer ∙ p.layer;
      fingerprint = k.fingerprint;
      measure = (k.reclassify, k.last_path_check);
      groups = subst (All Fresh) (sym k.groups) (forgotten f.groups);
    }

prepared :
    (pair : Egress × Egress) (started : Option Helper) (e : Engine)
    → Prepared e (move_interface pair started e)
unfolding rebind_helper
prepared pair none e = ground arith
prepared pair (some h) e = ground arith

rebind_layer-Rebound :
    (fp : Text) (now : ℕ) (pair : Option (Egress × Egress)) (started : Option Helper) (e f : Engine)
    → rebind_layer fp now pair started e ≡ some f
    → Rebound fp e f
rebind_layer-Rebound fp now none started e f h = cc h
rebind_layer-Rebound fp now (some pair) started e f h = elim (Bool-cases (can_rebind e)) [
  | inl c ↦
      let same : adopt_network fp now (move_interface pair started e) ≡ f = ground (arith, c, h) in
      subst (Rebound fp e) same
        (adopted fp now e (move_interface pair started e) (prepared pair started e))
  | inr c ↦ absurd (ground (arith, c, h))
]

-- A soft rebind keeps the session, the resolver, the gateway and the layer: it adopts the new network, forgets
-- the failures of every group, and has the next round of the monitor measure the network at once.
pub soft_rebind-Rebound :
    (fp : Text) (now : ℕ) (r : Rebind) (e f : Engine)
    → soft_rebind fp now r e ≡ some f
    → Rebound fp e f
unfolding soft_rebind
soft_rebind-Rebound fp now r e f h = elim (Bool-cases (is_selective e.layer)) [
  | inl c ↦
      rebind_layer-Rebound fp now (same_interface e.capture_info r.snapshot) r.helper e f
        (ground (arith, c, h))
  | inr c ↦
      let same : adopt_network fp now e ≡ f = ground (arith, c, h) in
      subst (Rebound fp e) same (adopted fp now e e (ground arith))
]
