-- ===== src/Dns/Restore/Steering.antt =====
-- applySystemDNSWith and the record.
use offveil.Prelude.{
  Bool, true, false, ◌||◌, Option, none, some, List, [], ◌∷◌, ◌≡◌, ◌∙◌, inl, inr, refl, sym, subst,
  Text, is_empty, length, ltb, if◌then◌else◌, text_eq, text_eq→eq, text_eq_refl, Bool-cases, ◌==◌,
  arith, true-not_false, In,
}
use offveil.Netip.{Addr}
use offveil.Dns.Services.{Service, filter_dns_targets, parse_ip}
use offveil.Dns.Restore
use offveil.Dns.Restore.Apply
use offveil.Dns.Restore.System.{
  ServiceDns, Snapshot, Machine, NetworkSetup, get_dns, set_dns, load_snapshot, stub_dns_ip,
}
use offveil.Dns.Restore.Recoverable.{named, record_of, Same, Kept, Right, IsKept}
use offveil.Dns.Restore.Undone.{restore_from-Ends}

-- All of a list of services is in the record.
abbrev Covers : List ServiceDns → List ServiceDns → Type 0
Covers p ss = (s : ServiceDns) → In s ss → named s.name p ≡ true

named-In : (s : ServiceDns) (p : List ServiceDns) → In s p → named s.name p ≡ true
named-In s [] i = absurd i
named-In s (t ∷ p) (inl e) = rw e (rw (text_eq_refl t.name) refl)
named-In s (t ∷ p) (inr i) = ground (arith, named-In s p i)

recorded_servers : (x : List Addr) → (if is_empty x || is_empty x then [] else x) ≡ x
recorded_servers [] = refl
recorded_servers (a ∷ x) = refl

none_named :
    (ss : List ServiceDns) (name : Text) → ltb 0 (length ss) ≡ false → named name ss ≡ false
none_named [] name f = refl
none_named (s ∷ ss) name f = ground arith

unnamed :
    (o : Option Snapshot) (name : Text)
    → Apply.is_pending o ≡ false
    → named name (record_of o) ≡ false
unnamed none name f = refl
unnamed (some snap) name f = none_named snap.services name f

module _ (orig : Text → List Addr) where
  abbrev EachRight : Option (List ServiceDns) → Type 0
  EachRight none = Unit {0}
  EachRight (some p) = Right orig p

  recorded-Right :
      (w : NetworkSetup) (s : Service) (m : Machine) (rest : Option (List ServiceDns))
      → Same orig s.name (m.settings s.name)
      → EachRight rest
      → EachRight (Apply.recorded s (get_dns w s.name m) rest)
  recorded-Right w s m none same r = elim (Bool-cases (w.get_fails s.name)) [
    | inl e ↦ rw e _
    | inr e ↦ rw e _
  ]
  recorded-Right w s m (some p) same r = elim (Bool-cases (w.get_fails s.name)) [
    | inl e ↦ rw e _
    | inr e ↦ rw e (subst (Same orig s.name) (sym (recorded_servers (m.settings s.name))) same, r)
  ]

  snapshot_of-Right :
      (w : NetworkSetup) (ss : List Service) (m : Machine)
      → ((name : Text) → Same orig name (m.settings name))
      → EachRight (Apply.snapshot_of w ss m)
  unfolding Apply.snapshot_of
  snapshot_of-Right w [] m same = _
  snapshot_of-Right w (s ∷ ss) m same =
      recorded-Right w s m (Apply.snapshot_of w ss m) (same s.name) (snapshot_of-Right w ss m same)

  steered-Kept :
      (w : NetworkSetup) (stub : Addr) (s : ServiceDns) (p : List ServiceDns) (a : Apply.Applied)
      → named s.name p ≡ true
      → Kept orig p a.machine.settings
      → Kept orig p
          (Apply.steered s.name (set_dns w s.name (stub ∷ []) a.machine) a).machine.settings
  steered-Kept w stub s p a h k n = elim (Bool-cases (w.set_fails s.name)) [
    | inl e ↦ rw e (k n)
    | inr e ↦ rw e (elim (Bool-cases (text_eq n s.name)) [
      | inl f ↦ inr (subst (λ t. named t p ≡ true) (sym (text_eq→eq n s.name f)) h)
      | inr f ↦ rw f (k n)
    ])
  ]

  steered-snapshot :
      (w : NetworkSetup) (stub : Addr) (s : ServiceDns) (a : Apply.Applied)
      → (Apply.steered s.name (set_dns w s.name (stub ∷ []) a.machine) a).machine.snapshot
        ≡ a.machine.snapshot
  steered-snapshot w stub s a = ground arith

  steer-Kept :
      (w : NetworkSetup) (stub : Addr) (ss p : List ServiceDns) (a : Apply.Applied)
      → Covers p ss
      → Kept orig p a.machine.settings
      → Kept orig p (Apply.steer w stub ss a).machine.settings
        × ((Apply.steer w stub ss a).machine.snapshot ≡ a.machine.snapshot)
  unfolding Apply.steer
  steer-Kept w stub [] p a c k = (k, refl)
  steer-Kept w stub (s ∷ ss) p a c k =
      let b = Apply.steered s.name (set_dns w s.name (stub ∷ []) a.machine) a in
      let (k', e) =
        steer-Kept w stub ss p b (λ t i. c t (inr i))
          (steered-Kept w stub s p a (c s (inl refl)) k) in
      (k', e ∙ steered-snapshot w stub s a)

  refused-IsKept :
      (e : Restore.Error) (m : Machine) → IsKept orig m → IsKept orig (Apply.refused e m).machine
  refused-IsKept e m k = k

  turned_back-IsKept :
      (e : Option Restore.Error) (o : Restore.Outcome)
      → IsKept orig o.machine
      → IsKept orig (Apply.turned_back e o).machine
  turned_back-IsKept none o k = k
  turned_back-IsKept (some e) o k = k

  finish_apply-IsKept :
      (w : NetworkSetup) (a : Apply.Applied)
      → IsKept orig a.machine
      → IsKept orig (Apply.finish_apply w a).machine
  unfolding Restore.give_back Restore.flush_leftover_stub_dns
  finish_apply-IsKept w a k = elim (Bool-cases (a.applied == 0)) [
    | inl e ↦ rw e (
        let o = Restore.restore_from w true false (load_snapshot w a.machine) a.machine in
        let (kept, clean) = restore_from-Ends orig w true false a.machine k in
        turned_back-IsKept a.first o kept)
    | inr e ↦ rw e k
  ]

  apply_read-IsKept :
      (w later : NetworkSetup) (stub : Addr) (o : Option (List ServiceDns)) (m : Machine)
      → ((name : Text) → Same orig name (m.settings name))
      → EachRight o
      → IsKept orig m
      → IsKept orig (Apply.apply_read w later stub o m).machine
  unfolding Apply.steer Restore.give_back Restore.flush_leftover_stub_dns
  apply_read-IsKept w later stub none m same r k = k
  apply_read-IsKept w later stub (some ss) m same r k = elim (Bool-cases w.save_fails) [
    | inl e ↦ rw e k
    | inr e ↦ rw e (
        let a : Apply.Applied = record {
          machine = record m {
            snapshot = some (record { version = 1; stub_ip = stub; services = ss });
          };
          applied = 0;
          first = none;
        } in
        let (k', s) = steer-Kept w stub ss ss a (λ t i. named-In t ss i) (λ n. inl (same n)) in
        finish_apply-IsKept later (Apply.steer w stub ss a) (rw s (k', r)))
  ]

  apply_listed-IsKept :
      (w later : NetworkSetup) (stub : Addr) (o : Option (List Service)) (m : Machine)
      → ((name : Text) → Same orig name (m.settings name))
      → IsKept orig m
      → IsKept orig (Apply.apply_listed w later stub o m).machine
  unfolding Apply.snapshot_of Apply.steer Restore.give_back Restore.flush_leftover_stub_dns
  apply_listed-IsKept w later stub none m same k = k
  apply_listed-IsKept w later stub (some ss) m same k =
      let targets = filter_dns_targets ss in
      elim (Bool-cases (is_empty targets)) [
        | inl e ↦ rw e k
        | inr e ↦ rw e (
            apply_read-IsKept w later stub (Apply.snapshot_of w targets m) m same
              (snapshot_of-Right w targets m same) k)
      ]

  not_pending :
      (o : Option Snapshot) (m : Machine)
      → m.snapshot ≡ o
      → Apply.is_pending o ≡ false
      → IsKept orig m
      → (name : Text) → Same orig name (m.settings name)
  not_pending o m e f (k, right) name = elim (k name) [
    | inl s ↦ s
    | inr h ↦
        absurd (
          true-not_false
            (sym (subst (λ p. named name (record_of p) ≡ true) e h) ∙ unnamed o name f))
  ]

  apply_loaded-IsKept :
      (w later : NetworkSetup) (stub : Addr) (fails : Bool) (o : Option Snapshot) (m : Machine)
      → m.snapshot ≡ o
      → IsKept orig m
      → IsKept orig (Apply.apply_loaded w later stub (if fails then none else some o) m).machine
  apply_loaded-IsKept w later stub true o m e k = k
  apply_loaded-IsKept w later stub false o m e k = elim (Bool-cases (Apply.is_pending o)) [
    | inl f ↦ rw f k
    | inr f ↦ rw f (apply_listed-IsKept w later stub w.services m (not_pending o m e f k) k)
  ]

  apply_at-IsKept :
      (w later : NetworkSetup) (o : Option Addr) (m : Machine)
      → IsKept orig m
      → IsKept orig (Apply.apply_at w later o m).machine
  apply_at-IsKept w later none m k = k
  apply_at-IsKept w later (some stub) m k =
      apply_loaded-IsKept w later stub w.load_fails m.snapshot m refl k

  pub apply-IsKept :
      (w later : NetworkSetup) (stub : Text) (m : Machine)
      → IsKept orig m
      → IsKept orig (Apply.apply_system_dns w later stub m).machine
  unfolding Apply.apply_system_dns
  apply-IsKept w later stub m k =
      apply_at-IsKept w later (if is_empty stub then some stub_dns_ip else parse_ip stub) m k
