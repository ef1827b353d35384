-- ===== src/Engine/Strategy/Ends.antt =====
-- How the search for a strategy ends.
use offveil.Prelude.{
  ℕ, ◌≡◌, refl, ◌∙◌, Bool, true, false, not, ◌&&◌, ◌||◌, Option, none, some, arith, Text, List, [],
  ◌∷◌, Bool-cases, inl, inr,
}
use offveil.Engine.Signals.{desync_component}
use offveil.Engine.Core.{Engine, Helper, current_session, record_failure, strategy_trial}
use offveil.Engine.Status.{refresh_network_status, publish}
use offveil.Engine.Status.Frame.{refresh-Kept, publish-Kept}
use offveil.Engine.Repairs.{release, edit}
use offveil.Engine.Strategy.{
  Search, Found, nothing, cleanup_fails, candidate, finish, fail_group, note_trials, apply_found,
  still_same, scan_result, may_adopt, scan_verified, scan_restored, begin_scan, may_scan,
}

-- What the journal of a scan leaves alone.
record Noted (e f : Engine) : Type 0 where
  switching : f.strategy_switching ≡ e.strategy_switching
  scan : f.desync_scan ≡ e.desync_scan
  work : f.group_work ≡ e.group_work
  groups : f.groups ≡ e.groups

note_trials-Noted :
    (id : Text) (trials : List Text) (e : Engine) → Noted e (note_trials id trials e)
unfolding note_trials
note_trials-Noted id [] e = ground arith
note_trials-Noted id (trial ∷ trials) e =
    let rest =
      note_trials-Noted id trials (record_failure strategy_trial (some desync_component) id 0 e) in
    record { switching = rest.switching; scan = rest.scan; work = rest.work; groups = rest.groups }

-- What one section of the search leaves behind: the monitor is free once the search is over, and the
-- helper is away exactly while a winner is tried.
pub record Ended (go : Bool) (f : Engine) : Type 0 where
  pub work : go ≡ false → f.group_work ≡ false
  pub away : go ≡ true → (f.des ≡ none) × (f.strategy_switching ≡ true)

finish-Ended : (e : Engine) → Ended false (finish e)
finish-Ended e = record {
  work = λ h. (publish-Kept (release e)).group_work;
  away = λ h. ground arith;
}

finish-free :
    (e : Engine)
    → e.strategy_switching ≡ false
    → ((finish (refresh_network_status e)).group_work ≡ false)
      × ((finish (refresh_network_status e)).strategy_switching ≡ false)
finish-free e off =
    let kept = publish-Kept (release (refresh_network_status e)) in
    (kept.group_work, kept.strategy_switching ∙ (refresh-Kept e).strategy_switching ∙ off)

apply_found-Ended :
    (id : Text) (found : Found) (e : Engine)
    → Ended (apply_found id found e).1 (apply_found id found e).0
unfolding apply_found
apply_found-Ended id nothing e =
    finish-Ended (edit id fail_group (record e { desync_scan = false }))
apply_found-Ended id cleanup_fails e =
    finish-Ended
      (record (publish (record e { strategy_switching = true })) { strategy_switching = false })
apply_found-Ended id candidate e = record {
  work = λ h. ground arith;
  away = λ h. (refl, (publish-Kept (record e { strategy_switching = true })).strategy_switching);
}

scan_result-Ended :
    (generation : ℕ) (id : Text) (s : Search) (canceled : Bool) (tried : List Text) (found : Found)
    (e : Engine)
    → let (f, go) = scan_result generation id s canceled tried found e in Ended go f
unfolding scan_result
scan_result-Ended generation id s canceled tried found e =
    elim (Bool-cases (not (current_session generation e && e.desync_scan))) [
      | inl h ↦ rw h (finish-Ended e)
      | inr h ↦ elim (Bool-cases (canceled || not (still_same s e))) [
        | inl k ↦ rw (h, k) (finish-Ended (record e { desync_scan = false }))
        | inr k ↦ rw (h, k) (apply_found-Ended id found (note_trials id tried e))
      ]
    ]

scan_verified-free :
    (generation : ℕ) (id : Text) (s : Search) (canceled : Bool) (winner : Option Helper)
    (e : Engine)
    → let (f, again) = scan_verified generation id s canceled winner e in
      again ≡ false → (f.group_work ≡ false) × (f.strategy_switching ≡ false)
unfolding scan_verified
scan_verified-free generation id s canceled none e =
    elim (Bool-cases (may_adopt generation s canceled e)) [
      | inl h ↦ rw h (λ k. ground (arith, k))
      | inr h ↦ rw h (λ k. (refl, refl))
    ]
scan_verified-free generation id s canceled (some w) e =
    elim (Bool-cases (may_adopt generation s canceled e)) [
      | inl h ↦ rw h (λ k. finish-free _ refl)
      | inr h ↦ rw h (λ k. (refl, refl))
    ]

scan_restored-free :
    (generation : ℕ) (id : Text) (s : Search) (canceled : Bool) (old : Option Helper)
    (failed : Bool) (e : Engine)
    → let f = scan_restored generation id s canceled old failed e in
      (f.group_work ≡ false) × (f.strategy_switching ≡ false)
unfolding scan_restored
scan_restored-free generation id s canceled old failed e =
    elim (Bool-cases (may_adopt generation s canceled e)) [
      | inl h ↦ rw h (finish-free _ refl)
      | inr h ↦ rw h (refl, refl)
    ]

-- Whatever a scan, the trial of its winner or the restart of the old strategy brings, and whether or
-- not the session still runs, the section that ends the search leaves the monitor free for another
-- repair; the last two also leave the recovery of components free, and a section that goes on to a
-- trial has put the helper away and holds the recovery off.
pub search_frees :
    (generation : ℕ) (id : Text) (s : Search) (canceled : Bool) (tried : List Text) (found : Found)
    (winner old : Option Helper) (failed : Bool) (e : Engine)
    → let (scanned, go) = scan_result generation id s canceled tried found e in
      let (tested, again) = scan_verified generation id s canceled winner e in
      let restored = scan_restored generation id s canceled old failed e in
      Ended go scanned
      × (again ≡ false → (tested.group_work ≡ false) × (tested.strategy_switching ≡ false))
      × ((restored.group_work ≡ false) × (restored.strategy_switching ≡ false))
search_frees generation id s canceled tried found winner old failed e = (
  scan_result-Ended generation id s canceled tried found e,
  scan_verified-free generation id s canceled winner e,
  scan_restored-free generation id s canceled old failed e,
)

marked-none :
    (generation : ℕ) (id : Text) (e : Engine)
    → e.desync_scan ≡ true
    → (begin_scan generation id e).1 ≡ none
unfolding begin_scan may_scan
marked-none generation id e h = ground arith

scan_result-applies :
    (generation : ℕ) (id : Text) (s : Search) (tried : List Text) (found : Found) (e : Engine)
    → current_session generation e ≡ true
    → e.desync_scan ≡ true
    → still_same s e ≡ true
    → scan_result generation id s false tried found e
      ≡ apply_found id found (note_trials id tried e)
unfolding scan_result
scan_result-applies generation id s tried found e c d same = simp (c, d, same)

-- A helper that does not close during a search leaves the search marked as running: while the mark
-- stands, the session starts no other search.
pub search_stuck :
    (generation then_generation : ℕ) (id then_id : Text) (s : Search) (tried : List Text)
    (e : Engine)
    → current_session generation e ≡ true
    → e.desync_scan ≡ true
    → still_same s e ≡ true
    → let f = (scan_result generation id s false tried cleanup_fails e).0 in
      (f.desync_scan ≡ true) × ((begin_scan then_generation then_id f).1 ≡ none)
unfolding apply_found
search_stuck generation then_generation id then_id s tried e c d same =
    let noted = note_trials-Noted id tried e in
    let switching = record (note_trials id tried e) { strategy_switching = true } in
    let switched = publish-Kept switching in
    let closed = record (publish switching) { strategy_switching = false } in
    let on = (publish-Kept (release closed)).desync_scan ∙ switched.desync_scan ∙ noted.scan ∙ d in
    rw (scan_result-applies generation id s tried cleanup_fails e c d same)
      (on, marked-none then_generation then_id (finish closed) on)
