-- ===== src/Engine/Reprobe/Refreshed.antt =====
-- What a silent probe leaves of an expired decision.
use offveil.Prelude.{
  ℕ, ◌+◌, ◌≤◌, ◌≡◌, ◌∙◌, inl, inr, refl, sym, ap, true, false, Option, none, some, List, [], ◌∷◌,
  Text, codes, text_eq, is_empty, lookup, lookup-insert, if◌then◌else◌, Bool-cases, arith,
}
use offveil.Netinfo.{Network}
use offveil.Engine.Core.{Engine, current_session}
use offveil.Engine.Heal.{physical_network_changed}
use offveil.Policy.Store.{
  Store, Entry, entry_of, put_locked, put, look_up, is_expired, ttl_for, observe_network,
  expired_domains,
}
use offveil.Probe.Target.{ProbeResult}
use offveil.Engine.Reprobe.{
  put_results, path_of, class_text, land_reprobe, begin_reprobe, observe_reprobe,
  silent_reprobe_session,
}

-- The last result on a host.
unfoldable pub last_result : Text → List ProbeResult → Option ProbeResult → Option ProbeResult
last_result host [] found = found
last_result host (r ∷ rs) found =
    last_result host rs (if text_eq r.target host then some r else found)

-- The entry that a result becomes.
abbrev pub entry_from : ℕ → ProbeResult → Entry
entry_from now r = entry_of r.target (path_of r) (class_text r.class) (codes "probe:ttl") now 0 now

abbrev verdict_or : ℕ → Option ProbeResult → Option Entry → Option Entry
verdict_or now none before = before
verdict_or now (some r) before = some (entry_from now r)

last_result-some :
    (host : Text) (rs : List ProbeResult) (r : ProbeResult) (now : ℕ) (before : Option Entry)
    → verdict_or now (last_result host rs (some r)) before
      ≡ verdict_or now (last_result host rs (some r)) none
unfolding last_result
last_result-some host [] r now before = refl
last_result-some host (q ∷ rs) r now before = elim (Bool-cases (text_eq q.target host)) [
  | inl e ↦ rw e (last_result-some host rs q now before)
  | inr e ↦ rw e (last_result-some host rs r now before)
]

last_result-shift :
    (host : Text) (rs : List ProbeResult) (r : ProbeResult) (now : ℕ) (before : Option Entry)
    → verdict_or now (last_result host rs none) (some (entry_from now r))
      ≡ verdict_or now (last_result host rs (some r)) before
unfolding last_result
last_result-shift host [] r now before = refl
last_result-shift host (q ∷ rs) r now before = elim (Bool-cases (text_eq q.target host)) [
  | inl e ↦ rw e (
      last_result-some host rs q now (some (entry_from now r))
      ∙ sym (last_result-some host rs q now before))
  | inr e ↦ rw e (last_result-shift host rs r now before)
]

put_results-lookup :
    (now : ℕ) (host : Text) (rs : List ProbeResult) (p : Store)
    → lookup host (put_results now rs p).entries
      ≡ verdict_or now (last_result host rs none) (lookup host p.entries)
unfolding last_result put_locked
put_results-lookup now host [] p = refl
put_results-lookup now host (r ∷ rs) p =
    let q = put r.target (path_of r) (class_text r.class) (codes "probe:ttl") now p in
    put_results-lookup now host rs q ∙ elim (Bool-cases (text_eq r.target host)) [
      | inl e ↦
          rw (lookup-insert r.target host (entry_from now r) p.entries)
            (rw e (last_result-shift host rs r now (lookup host p.entries)))
      | inr e ↦ rw (lookup-insert r.target host (entry_from now r) p.entries) (rw e refl)
    ]

fresh :
    (r : ProbeResult) (now d : ℕ)
    → d ≤ ttl_for (path_of r) (class_text r.class)
    → is_expired (now + d) (entry_from now r) ≡ false
fresh r now d h = ground arith

look_up-fresh :
    (host : Text) (t : ℕ) (p : Store) (e : Entry)
    → lookup host p.entries ≡ some e
    → is_expired t e ≡ false
    → (look_up host t p).1 ≡ some e
unfolding look_up
look_up-fresh host t p e found live = rw found (rw live refl)

-- Where the session goes on through a silent probe, the lookup shows no other physical network and some
-- decision has expired, the cache answers every host of the report with its last result in it, at once and until
-- the time to live of that verdict is over.
pub silent_reprobe_session_lem :
    (generation now later d : ℕ) (net : Network) (probe : List Text → List ProbeResult)
    (e1 e2 e3 : Engine) (p : Store) (host : Text) (r : ProbeResult)
    → current_session generation e1 ≡ true
    → current_session generation e2 ≡ true
    → current_session generation e3 ≡ true
    → physical_network_changed net.fingerprint e2 ≡ false
    → is_empty (expired_domains now p).1 ≡ false
    → last_result host (probe (expired_domains now p).1) none ≡ some r
    → d ≤ ttl_for (path_of r) (class_text r.class)
    → (look_up host
        (later + d)
        (silent_reprobe_session generation now later net probe e1 e2 e3 p).0).1
      ≡ some (entry_from later r)
unfolding silent_reprobe_session begin_reprobe observe_reprobe land_reprobe
silent_reprobe_session_lem generation now later d net probe e1 e2 e3 p host r c1 c2 c3 same
      some_expired last ttl =
    let hosts = (expired_domains now p).1 in
    let q = (observe_network net (expired_domains now p).0).0 in
    rw c1 (
      rw c2 (
        rw same (
          rw some_expired (
            rw c3 (
              look_up-fresh host (later + d) (put_results later (probe hosts) q)
                (entry_from later r)
                (put_results-lookup later host (probe hosts) q
                  ∙ ap (λ o. verdict_or later o (lookup host q.entries)) last)
                (fresh r later d ttl))))))
