-- ===== src/Engine/Monitor/Rounds.antt =====
-- What one round of the monitor may do.
use offveil.Prelude.{
  ℕ, suc, ◌≤◌, ◌≡◌, refl, ap, ◌∙◌, Bool, true, false, not, ◌&&◌, List, [], ◌∷◌, Option, none, some,
  Text, arith, ◌⊎◌, inl, inr, In, Bool-cases, if◌then◌else◌,
}
use offveil.Ruleset.Hosts.{member}
use offveil.Engine.Signals.{FailClass, is_ok, desync_path, tunnel_path, elapsed}
use offveil.Engine.Groups.{GroupState, group_paths, group_failure_threshold, group_retry_interval}
use offveil.Engine.Core.{Engine, current_session}
use offveil.Engine.Status.Frame.{Kept-trans, refresh-Kept, publish-Kept}
use offveil.Engine.Monitor.{
  Action, scan, escalate, revert, Round, Measured, apply_group, apply_groups, line_offline,
  may_apply, finish_check,
}

-- The repair that fits a group: a scan of a group on the helper that was not scanned for ten
-- minutes, otherwise its move to the tunnel, and the return of a group on the tunnel.
abbrev pub Fits : Bool → ℕ → GroupState → Action → Type 0
Fits scanning now g a =
    ((g.path ≡ desync_path)
      × (a ≡ scan g.id)
      × ((elapsed group_retry_interval g.last_scan now && not scanning) ≡ true))
    ⊎ ((g.path ≡ desync_path)
        × (a ≡ escalate g.id)
        × ((elapsed group_retry_interval g.last_scan now && not scanning) ≡ false))
    ⊎ ((g.path ≡ tunnel_path) × (a ≡ revert g.id))

-- A group that the round probed, that failed on a line that is up, for at least the second time.
pub record Calls (line_down scanning : Bool) (now : ℕ) (results : Text → FailClass)
    (due : List Text) (a : Action) (g : GroupState) : Type 0 where
  pub probed : member g.id due ≡ true
  pub failed : is_ok (results g.id) ≡ false
  pub line_up : line_down ≡ false
  pub again : group_failure_threshold ≤ suc g.failures
  pub fits : Fits scanning now g a

apply_group-action :
    (line_down : Bool) (now : ℕ) (scanning : Bool) (class : FailClass) (action : Option Action)
    (g : GroupState) (a : Action)
    → (apply_group line_down now scanning class action g).1 ≡ some a
    → (action ≡ some a)
      ⊎ ((is_ok class ≡ false)
          × (line_down ≡ false)
          × (group_failure_threshold ≤ suc g.failures)
          × Fits scanning now g a)
unfolding apply_group
apply_group-action line_down now scanning class action g a h = ground arith

apply_group-path :
    (line_down : Bool) (now : ℕ) (scanning : Bool) (class : FailClass) (action : Option Action)
    (g : GroupState)
    → ((apply_group line_down now scanning class action g).0.path ≡ g.path)
      × ((apply_group line_down now scanning class action g).0.id ≡ g.id)
unfolding apply_group
apply_group-path line_down now scanning class action g = ground arith

module _ (line_down : Bool) (now : ℕ) (scanning : Bool) (results : Text → FailClass)
    (due : List Text) where
  apply_groups-action :
      (action : Option Action) (gs : List GroupState) (a : Action)
      → (apply_groups line_down now scanning results due action gs).1 ≡ some a
      → (action ≡ some a)
        ⊎ ((g : GroupState) × In g gs × Calls line_down scanning now results due a g)
  unfolding apply_groups
  apply_groups-action action [] a h = inl h
  apply_groups-action action (g ∷ gs) a h = elim (Bool-cases (member g.id due)) [
    | inl d ↦
        elim (apply_groups-action (apply_group line_down now scanning (results g.id) action g).1 gs
          a (rw d at h)) [
            | inl q ↦ elim (apply_group-action line_down now scanning (results g.id) action g a q) [
              | inl p ↦ inl p
              | inr (bad, line, again, fits) ↦ inr (
                g,
                inl refl,
                record { probed = d; failed = bad; line_up = line; again = again; fits = fits },
              )
            ]
            | inr (k, m, c) ↦ inr (k, inr m, c)
          ]
    | inr d ↦ elim (apply_groups-action action gs a (rw d at h)) [
      | inl q ↦ inl q
      | inr (k, m, c) ↦ inr (k, inr m, c)
    ]
  ]

  apply_groups-paths :
      (action : Option Action) (gs : List GroupState)
      → group_paths (apply_groups line_down now scanning results due action gs).0 ≡ group_paths gs
  unfolding apply_groups
  apply_groups-paths action [] = refl
  apply_groups-paths action (g ∷ gs) = elim (Bool-cases (member g.id due)) [
    | inl d ↦
        let rest =
          apply_groups-paths (apply_group line_down now scanning (results g.id) action g).1 gs in
        let (p, i) = apply_group-path line_down now scanning (results g.id) action g in
        rw d (cc (rest, p, i))
    | inr d ↦ rw d (ap (◌∷◌ (g.id, g.path)) (apply_groups-paths action gs))
  ]

may_apply-current :
    (generation session : ℕ) (e : Engine)
    → may_apply generation session e ≡ true
    → current_session generation e ≡ true
unfolding may_apply
may_apply-current generation session e h = ground arith

-- A round starts a repair only for a group that it probed, that failed for the second time or more
-- on a line that is not offline, and the repair is the one that fits the group's path and its last
-- scan.
pub finish_check-action :
    (generation now : ℕ) (controls : List Text) (round : Round) (m : Measured) (e : Engine)
    (a : Action)
    → (finish_check generation now controls round m e).1 ≡ some a
    → (current_session generation e ≡ true)
      × ((g : GroupState) × In g e.groups
          × Calls (line_offline m controls) e.desync_scan now m.groups round.due a g)
unfolding finish_check
finish_check-action generation now controls round m e a h =
    elim (Bool-cases (may_apply generation round.session e)) [
      | inl go ↦
          elim (apply_groups-action (line_offline m controls) now e.desync_scan m.groups round.due
            none e.groups a (rw go at h)) [
              | inl q ↦ cc
              | inr found ↦ (may_apply-current generation round.session e go, found)
            ]
      | inr stop ↦ absurd (ground (arith, h, stop))
    ]

-- No round changes the path of a group: only the repairs do.
pub finish_check-paths :
    (generation now : ℕ) (controls : List Text) (round : Round) (m : Measured) (e : Engine)
    → group_paths (finish_check generation now controls round m e).0.groups ≡ group_paths e.groups
unfolding finish_check
finish_check-paths generation now controls round m e =
    elim (Bool-cases (may_apply generation round.session e)) [
      | inl go ↦ rw go (
          ap group_paths (Kept-trans (refresh-Kept _) (publish-Kept _)).groups
          ∙ apply_groups-paths (line_offline m controls) now e.desync_scan m.groups round.due none
              e.groups)
      | inr stop ↦ rw stop
    ]

-- The next state of a group's failure counter after one probe.
abbrev pub next_failures : Bool → FailClass → ℕ → ℕ
next_failures line_down class n = if is_ok class then 0 else if line_down then n else suc n

-- A probe resets the counter of a group that opens, leaves it alone while the line is offline, and
-- otherwise counts one failure, whatever repair is chosen; a group that opens is reachable again.
pub apply_group-failures :
    (line_down : Bool) (now : ℕ) (scanning : Bool) (class : FailClass) (action : Option Action)
    (g : GroupState)
    → let g' = (apply_group line_down now scanning class action g).0 in
      (g'.failures ≡ next_failures line_down class g.failures)
      × (g'.ok ≡ is_ok class)
      × (g'.unreachable ≡ (if is_ok class then false else g.unreachable))
      × (line_down ≡ true → (apply_group line_down now scanning class action g).1 ≡ action)
unfolding apply_group
apply_group-failures line_down now scanning class action g =
    (ground arith, ground arith, ground arith, λ h. ground arith)
