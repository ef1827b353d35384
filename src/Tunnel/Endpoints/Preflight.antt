-- ===== src/Tunnel/Endpoints/Preflight.antt =====
-- The candidates, what a preflight returns, and the file of the remembered endpoints.
use offveil.Prelude.{
  ◌≤◌, ◌≡◌, ◌≢◌, ◌⊎◌, refl, sym, ap, ◌∙◌, subst, inl, inr, true, false, not, ◌&&◌, Option, none,
  some, List, [], ◌∷◌, Text, ltb, if◌then◌else◌, length, In, Bool-cases, arith, length-insert-le,
  lookup-insert_self, some-injective, text_eq, text_eq_refl, any, is_empty, both_hold,
  true-not_false, map,
}
use offveil.Netip.HostPort.{split_host_port}
use offveil.Tunnel.Types.{WarpProfile}
use offveil.Tunnel.Session.{FailClass, Stage}
use offveil.Tunnel.Endpoints.{
  is_new, is_some, add_all, warp_endpoint_candidates, at_ports, hosts_of, warp_endpoint_ports,
  Trial, passed, missed, winner, pinned, preflight, preflight_candidates, remember_endpoint,
  remembered_endpoint, remember_winner, or_empty,
}

-- No endpoint twice.
abbrev pub Distinct : List Text → Type 0
Distinct [] = Unit {0}
Distinct (e ∷ es) = (In e es → ⊥) × Distinct es

-- An endpoint with a host and a port.
abbrev pub HasPort : Text → Type 0
HasPort e = (e ≢ []) × (parts : Text × Text) × (split_host_port e ≡ some parts)

parts_of : (o : Option (Text × Text)) → is_some o ≡ true → (parts : Text × Text) × (o ≡ some parts)
parts_of none h = cc
parts_of (some x) h = (x, refl)

new-HasPort : (e : Text) (seen : List Text) → is_new e seen ≡ true → HasPort e
unfolding is_new
new-HasPort e seen h =
    let (a, b) =
      both_hold (not (is_empty e) && not (any (text_eq e) seen)) (is_some (split_host_port e)) h in
    let (c, d) = both_hold (not (is_empty e)) (not (any (text_eq e) seen)) a in
    let (parts, p) = parts_of (split_host_port e) b in
    (λ k. true-not_false (sym (subst (λ x. not (is_empty x) ≡ true) k c)), parts, p)

new-unseen : (e : Text) (seen : List Text) → is_new e seen ≡ true → any (text_eq e) seen ≡ false
unfolding is_new
new-unseen e seen h = ground (arith, h)

new-first : (e : Text) (seen : List Text) → is_new e seen ≡ true → is_new e [] ≡ true
unfolding is_new
new-first e seen h = ground (arith, h)

unseen-tail :
    (x e : Text) (seen : List Text)
    → any (text_eq x) (e ∷ seen) ≡ false
    → any (text_eq x) seen ≡ false
unseen-tail x e seen h = ground (arith, h)

-- What is added is a new endpoint that was not seen before.
add_all-In :
    (x : Text) (seen es : List Text)
    → In x (add_all seen es)
    → (any (text_eq x) seen ≡ false) × (is_new x [] ≡ true)
unfolding add_all
add_all-In x seen [] i = absurd i
add_all-In x seen (e ∷ es) i = elim (Bool-cases (is_new e seen)) [
  | inl h ↦ elim (rw h at i) [
    | inl same ↦ rw same (new-unseen e seen h, new-first e seen h)
    | inr j ↦
        let (unseen, first) = add_all-In x (e ∷ seen) es j in (unseen-tail x e seen unseen, first)
  ]
  | inr h ↦ add_all-In x seen es (rw h at i)
]

add_all-Distinct : (seen es : List Text) → Distinct (add_all seen es)
unfolding add_all
add_all-Distinct seen [] = tt
add_all-Distinct seen (e ∷ es) = elim (Bool-cases (is_new e seen)) [
  | inl h ↦ rw h (
    λ i.
        let (unseen, first) = add_all-In e (e ∷ seen) es i in
        true-not_false (rw (text_eq_refl e) at unseen),
    add_all-Distinct (e ∷ seen) es,
  )
  | inr h ↦ rw h (add_all-Distinct seen es)
]

Trial-cases :
    (t : Trial) → (t ≡ passed) ⊎ ((class : FailClass) × (stage : Stage) × (t ≡ missed class stage))
Trial-cases passed = inl refl
Trial-cases (missed class stage) = inr (class, stage, refl)

module _ (attempt : Text → Trial) (w : WarpProfile) where
  abbrev tried : List Text → List (Text × Trial)
  tried es = map (λ e. (e, attempt e)) es

  winner-passed :
      (es : List Text) (v : WarpProfile)
      → winner w (tried es) ≡ some v
      → (e : Text) × In e es × (attempt e ≡ passed) × (v ≡ pinned w e)
  winner-passed [] v h = cc
  winner-passed (e ∷ es) v h = elim (Trial-cases (attempt e)) [
    | inl p ↦ (e, inl refl, p, sym (some-injective _ _ (rw p at h)))
    | inr (class, stage, m) ↦ let (x, i, p, k) = winner-passed es v (rw m at h) in (x, inr i, p, k)
  ]

  winner-found :
      (es : List Text) (e : Text) → In e es → attempt e ≡ passed → winner w (tried es) ≢ none
  winner-found [] e i p h = absurd i
  winner-found (x ∷ es) e (inl same) p h =
      let won : Path (Option WarpProfile) (some (pinned w x)) none =
        rw (ap attempt (sym same) ∙ p) at h in
      cc
  winner-found (x ∷ es) e (inr i) p h = elim (Trial-cases (attempt x)) [
    | inl q ↦ let won : Path (Option WarpProfile) (some (pinned w x)) none = rw q at h in cc
    | inr (class, stage, m) ↦ winner-found es e i p (rw m at h)
  ]

-- The file keeps at most 33 endpoints.
remember-bound :
    (scope endpoint : Text) (saved : List (Text × Text))
    → length (remember_endpoint scope endpoint saved) ≤ 33
unfolding remember_endpoint
remember-bound scope endpoint saved = elim (Bool-cases (ltb 32 (length saved))) [
  | inl e ↦ rw e (omega (arith, length-insert-le scope endpoint []))
  | inr e ↦
      let l : length saved ≤ 32 = ground (arith, e) in
      rw e (omega (arith, length-insert-le scope endpoint saved, l))
]

remember-found :
    (scope endpoint : Text) (saved : List (Text × Text))
    → remembered_endpoint (remember_endpoint scope endpoint saved) scope ≡ some endpoint
unfolding remember_endpoint remembered_endpoint
remember-found scope endpoint saved =
    lookup-insert_self scope endpoint (if ltb 32 (length saved) then [] else saved)

-- A remembered endpoint that was once a candidate is the first one.
remembered-first :
    (w : WarpProfile) (scope e : Text) (saved : List (Text × Text))
    → remembered_endpoint saved scope ≡ some e
    → is_new e [] ≡ true
    → (rest : List Text) × (preflight_candidates w scope saved ≡ e ∷ rest)
unfolding preflight_candidates warp_endpoint_candidates add_all
remembered-first w scope e saved found new =
    (add_all (e ∷ []) (at_ports (hosts_of (some w)) warp_endpoint_ports), rw found (rw new refl))

candidates-first :
    (w : WarpProfile) (scope : Text) (saved : List (Text × Text)) (e : Text)
    → In e (preflight_candidates w scope saved)
    → is_new e [] ≡ true
unfolding preflight_candidates warp_endpoint_candidates
candidates-first w scope saved e i =
    (add_all-In e []
      (or_empty (remembered_endpoint saved scope)
        ∷ at_ports (hosts_of (some w)) warp_endpoint_ports)
      i).1

candidates-Distinct :
    (w : WarpProfile) (scope : Text) (saved : List (Text × Text))
    → Distinct (preflight_candidates w scope saved)
unfolding preflight_candidates warp_endpoint_candidates
candidates-Distinct w scope saved =
    add_all-Distinct [] (
      or_empty (remembered_endpoint saved scope) ∷ at_ports (hosts_of (some w)) warp_endpoint_ports)

-- Whatever order the trials come in, and whichever of them do, a profile that a preflight returns is the
-- given one with a candidate that passed as its endpoint, and the candidates are distinct and have each
-- a host and a port. The next preflight on the same network, with any profile, then tries that
-- endpoint first, and the file holds at most 33 endpoints. Whenever the trial of a candidate
-- that passes comes in, a profile is returned.
pub preflight_lem :
    (attempt : Text → Trial) (arrivals : List Text → List Text) (w next : WarpProfile)
    (scope : Text) (saved : List (Text × Text))
    → ((es : List Text) (e : Text) → In e (arrivals es) → In e es)
    → let out = preflight attempt arrivals w scope saved in
      let candidates = preflight_candidates w scope saved in
      Distinct candidates
      × ((e : Text) → In e candidates → HasPort e)
      × ((v : WarpProfile)
          → out.profile ≡ some v
          → (e : Text) × In e candidates
            × (attempt e ≡ passed)
            × (v ≡ pinned w e)
            × ((rest : List Text) × (preflight_candidates next scope out.saved ≡ e ∷ rest))
            × (length out.saved ≤ 33))
      × ((e : Text) → In e (arrivals candidates) → attempt e ≡ passed → out.profile ≢ none)
unfolding preflight
preflight_lem attempt arrivals w next scope saved sound =
    let candidates = preflight_candidates w scope saved in
    (
      candidates-Distinct w scope saved,
      λ e i. new-HasPort e [] (candidates-first w scope saved e i),
      λ v h.
          let (e, i, p, k) = winner-passed attempt w (arrivals candidates) v h in
          let inside = sound candidates e i in
          let first = candidates-first w scope saved e inside in
          let stored = ap (λ o. remember_winner scope o saved) (h ∙ ap some k) in
          (
            e,
            inside,
            p,
            k,
            subst (λ m. (rest : List Text) × (preflight_candidates next scope m ≡ e ∷ rest))
                (sym stored)
                (remembered-first next scope e (remember_endpoint scope e saved)
                  (remember-found scope e saved) first),
            subst (λ m. length m ≤ 33) (sym stored) (remember-bound scope e saved),
          ),
      λ e i p. winner-found attempt w (arrivals candidates) e i p,
    )
