-- ===== src/Dns/Restore/Undone.antt =====
-- restoreSystemDNSWith and the record.
use offveil.Prelude.{
  ℕ, Bool, true, false, not, ◌&&◌, ◌||◌, Option, none, some, List, [], ◌∷◌, ◌≡◌, ◌≢◌, ◌∙◌, inl, inr,
  refl, sym, subst, Text, is_empty, length, ltb, if◌then◌else◌, text_eq, text_eq→eq, Bool-cases,
  arith,
}
use offveil.Netip.{Addr}
use offveil.Dns.Services.{Service, filter_dns_targets}
use offveil.Dns.Restore
use offveil.Dns.Restore.System.{
  ServiceDns, Snapshot, Machine, NetworkSetup, get_dns, set_dns, load_snapshot,
}
use offveil.Dns.Restore.Recoverable.{
  named, record_of, Same, Kept, Right, IsKept, Gives, Giving, give_back-named, give_back-snapshot,
  give_back-Gives,
}

pub Kept-empty :
    (orig : Text → List Addr) (f : Text → List Addr) (p : List ServiceDns)
    → Kept orig [] f
    → Kept orig p f
Kept-empty orig f p k n = elim (k n) [ inl s ↦ inl s | inr h ↦ cc ]

pending-left : (p : List ServiceDns) → ltb 0 (length p) ≡ true → p ≢ []
pending-left [] h e = cc
pending-left (s ∷ p) h e = cc e

nothing-left : (p : List ServiceDns) → ltb 0 (length p) ≡ false → p ≡ []
nothing-left [] h = refl
nothing-left (s ∷ p) h = ground arith

module _ (orig : Text → List Addr) where
  emptied-Kept :
      (w : NetworkSetup) (name : Text) (f : Restore.Flushed)
      → Restore.only_offveil_stub (orig name) ≡ true
      → Kept orig [] f.machine.settings
      → Kept orig [] (Restore.emptied name (set_dns w name [] f.machine) f).machine.settings
  emptied-Kept w name f stub k n = elim (Bool-cases (w.set_fails name)) [
    | inl e ↦ rw e (k n)
    | inr e ↦ rw e (elim (Bool-cases (text_eq n name)) [
      | inl h ↦ inl (
          inr (
            subst (λ m. Restore.only_offveil_stub (orig m) ≡ true) (sym (text_eq→eq n name h))
              stub))
      | inr h ↦ rw h (k n)
    ])
  ]

  -- What is steered alone was steered before.
  Same-stub :
      (name : Text) (v : List Addr)
      → Same orig name v
      → Restore.only_offveil_stub v ≡ true
      → Restore.only_offveil_stub (orig name) ≡ true
  Same-stub name v (inl e) h = subst (λ x. Restore.only_offveil_stub x ≡ true) e h
  Same-stub name v (inr e) h = e

  flush_one-Kept :
      (w : NetworkSetup) (name : Text) (f : Restore.Flushed)
      → Kept orig [] f.machine.settings
      → Kept orig [] (Restore.flush_one w name (get_dns w name f.machine) f).machine.settings
  flush_one-Kept w name f k n = elim (Bool-cases (w.get_fails name)) [
    | inl e ↦ rw e (k n)
    | inr e ↦ rw e (
        let servers = f.machine.settings name in
        elim (Bool-cases (is_empty servers || not (Restore.only_offveil_stub servers))) [
          | inl h ↦ rw h (k n)
          | inr h ↦ rw h (
              emptied-Kept w name f
                (elim (k name) [ inl s ↦ Same-stub name servers s (ground arith) | inr c ↦ cc ]) k
                n)
        ])
  ]

  flush_each-Kept :
      (w : NetworkSetup) (ss : List Service) (f : Restore.Flushed)
      → Kept orig [] f.machine.settings
      → Kept orig [] (Restore.flush_each w ss f).machine.settings
  unfolding Restore.flush_each
  flush_each-Kept w [] f k = k
  flush_each-Kept w (s ∷ ss) f k =
      flush_each-Kept w ss (Restore.flush_one w s.name (get_dns w s.name f.machine) f)
        (flush_one-Kept w s.name f k)

  flush_one-snapshot :
      (w : NetworkSetup) (name : Text) (f : Restore.Flushed)
      → (Restore.flush_one w name (get_dns w name f.machine) f).machine.snapshot
        ≡ f.machine.snapshot
  flush_one-snapshot w name f = ground arith

  flush_each-snapshot :
      (w : NetworkSetup) (ss : List Service) (f : Restore.Flushed)
      → (Restore.flush_each w ss f).machine.snapshot ≡ f.machine.snapshot
  unfolding Restore.flush_each
  flush_each-snapshot w [] f = refl
  flush_each-snapshot w (s ∷ ss) f =
      flush_each-snapshot w ss (Restore.flush_one w s.name (get_dns w s.name f.machine) f)
      ∙ flush_one-snapshot w s.name f

  flush_listed-Kept :
      (w : NetworkSetup) (o : Option (List Service)) (m : Machine)
      → Kept orig [] m.settings
      → Kept orig [] (Restore.flush_listed w o m).machine.settings
        × ((Restore.flush_listed w o m).machine.snapshot ≡ m.snapshot)
  unfolding Restore.flush_each
  flush_listed-Kept w none m k = (k, refl)
  flush_listed-Kept w (some ss) m k =
      let f : Restore.Flushed = record { machine = m; count = 0; first = none } in
      (
        flush_each-Kept w (filter_dns_targets ss) f k,
        flush_each-snapshot w (filter_dns_targets ss) f,
      )

  flush-Kept :
      (w : NetworkSetup) (armed up : Bool) (m : Machine)
      → Kept orig [] m.settings
      → Kept orig [] (Restore.flush_leftover_stub_dns w armed up m).machine.settings
        × ((Restore.flush_leftover_stub_dns w armed up m).machine.snapshot ≡ m.snapshot)
  unfolding Restore.flush_leftover_stub_dns
  flush-Kept w armed up m k = elim (Bool-cases (not armed && up)) [
    | inl e ↦ rw e (k, refl)
    | inr e ↦ rw e (flush_listed-Kept w w.services m k)
  ]

  -- A restore that reports no error leaves no service in the record.
  abbrev pub Ends : Restore.Outcome → Type 0
  Ends o = IsKept orig o.machine × (o.error ≡ none → record_of o.machine.snapshot ≡ [])

  unrecorded-Ends :
      (m n : Machine) (count : ℕ) (e : Option Restore.Error)
      → m.snapshot ≡ none
      → Kept orig [] n.settings × (n.snapshot ≡ m.snapshot)
      → Ends (Restore.unrecorded (record { machine = n; count = count; first = e }))
  unrecorded-Ends m n count e none_saved (k, same) = rw same (rw none_saved ((k, _), λ h. refl))

  keep_pending-Ends :
      (w : NetworkSetup) (snap : Snapshot) (p : Restore.RestoreProgress)
      → Gives orig p
      → p.machine.snapshot ≡ some snap
      → ((name : Text) → named name p.pending ≡ true → named name snap.services ≡ true)
      → Right orig snap.services
      → Ends (Restore.keep_pending w snap p)
  keep_pending-Ends w snap p (k, right, first) saved less rights =
      elim (Bool-cases (ltb 0 (length p.pending))) [
        | inl e ↦ rw e (elim (Bool-cases w.save_fails) [
          | inl f ↦ rw f (
              rw saved
                (((λ n. elim (k n) [ inl s ↦ inl s | inr h ↦ inr (less n h) ]), rights), λ h. cc h))
          | inr f ↦ rw f ((k, right), λ h. absurd (pending-left p.pending e (first h)))
        ])
        | inr e ↦ rw e (
            let none_left = nothing-left p.pending e in
            elim (Bool-cases w.clear_fails) [
              | inl f ↦ rw f (
                  rw saved (
                    (
                      Kept-empty orig p.machine.settings snap.services
                          (subst (λ ps. Kept orig ps p.machine.settings) none_left k),
                      rights,
                    ),
                    λ h. cc h,
                  ))
              | inr f ↦
                  rw f ((subst (λ ps. Kept orig ps p.machine.settings) none_left k, _), λ h. refl)
            ])
      ]

  Giving-start :
      (ss : List ServiceDns) (m : Machine)
      → Kept orig ss m.settings
      → Giving orig ss (record { machine = m; pending = []; restored = 0; first = none })
  Giving-start ss m k = (k, _, λ h. refl)

  loaded-Ends :
      (w : NetworkSetup) (armed up fails : Bool) (o : Option Snapshot) (m : Machine)
      → m.snapshot ≡ o
      → IsKept orig m
      → Ends (Restore.restore_from w armed up (if fails then none else some o) m)
  loaded-Ends w armed up true o m e kept = (kept, λ h. cc h)
  loaded-Ends w true up false none m e (k, right) =
      let f = Restore.flush_leftover_stub_dns w true up m in
      unrecorded-Ends m f.machine f.count f.first e
        (flush-Kept w true up m (subst (λ o. Kept orig (record_of o) m.settings) e k))
  loaded-Ends w false up false none m e (k, right) =
      unrecorded-Ends m m 0 none e (subst (λ o. Kept orig (record_of o) m.settings) e k, refl)
  loaded-Ends w armed up false (some snap) m e (k, right) =
      let p : Restore.RestoreProgress = record {
        machine = m;
        pending = [];
        restored = 0;
        first = none;
      } in
      let rights = subst (λ o. Right orig (record_of o)) e right in
      keep_pending-Ends w snap (Restore.give_back w snap.services p)
        (give_back-Gives orig w snap.services p rights
          (Giving-start snap.services m (subst (λ o. Kept orig (record_of o) m.settings) e k)))
        (give_back-snapshot w snap.services p ∙ e)
        (λ name h. give_back-named w snap.services p name h) rights

  pub restore_from-Ends :
      (w : NetworkSetup) (armed up : Bool) (m : Machine)
      → IsKept orig m
      → Ends (Restore.restore_from w armed up (load_snapshot w m) m)
  unfolding Restore.give_back Restore.flush_leftover_stub_dns
  restore_from-Ends w armed up m kept = loaded-Ends w armed up w.load_fails m.snapshot m refl kept
