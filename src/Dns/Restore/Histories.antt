-- ===== src/Dns/Restore/Histories.antt =====
-- applySystemDNSWith, and every history of it and of restores.
use offveil.Prelude.{
  Bool, true, false, none, List, [], ◌∷◌, ◌≡◌, inl, inr, refl, sym, subst, Text, true-not_false,
}
use offveil.Netip.{Addr}
use offveil.Dns.Restore
use offveil.Dns.Restore.Apply
use offveil.Dns.Restore.System.{Machine, NetworkSetup, load_snapshot}
use offveil.Dns.Restore.Recoverable.{named, record_of, IsKept}
use offveil.Dns.Restore.Undone.{restore_from-Ends}
use offveil.Dns.Restore.Steering.{apply-IsKept}

-- What happens to the settings in the life of the core, one after the other.
pub data Step : Type 0 where
  applying : NetworkSetup → NetworkSetup → Text → Step
  restoring : NetworkSetup → Bool → Bool → Step

unfoldable pub run_step : Step → Machine → Machine
unfolding Apply.apply_system_dns Restore.restore_system_dns
run_step (applying w later stub) m = (Apply.apply_system_dns w later stub m).machine
run_step (restoring w armed up) m = (Restore.restore_system_dns w armed up m).machine

unfoldable pub run : List Step → Machine → Machine
unfolding run_step
run [] m = m
run (s ∷ ss) m = run ss (run_step s m)

module _ (orig : Text → List Addr) where
  step-IsKept : (s : Step) (m : Machine) → IsKept orig m → IsKept orig (run_step s m)
  unfolding run_step Restore.restore_system_dns
  step-IsKept (applying w later stub) m k = apply-IsKept orig w later stub m k
  step-IsKept (restoring w armed up) m k =
      let (kept, ends) = restore_from-Ends orig w armed up m k in kept

  steps-IsKept : (ss : List Step) (m : Machine) → IsKept orig m → IsKept orig (run ss m)
  unfolding run
  steps-IsKept [] m k = k
  steps-IsKept (s ∷ ss) m k = steps-IsKept ss (run_step s m) (step-IsKept s m k)

  settled :
      (m : Machine)
      → record_of m.snapshot ≡ []
      → IsKept orig m
      → (name : Text) → Restore.only_offveil_stub (orig name) ≡ false
      → m.settings name ≡ orig name
  settled m clean (k, right) name other = elim (k name) [
    | inl s ↦ elim s [ inl e ↦ e | inr stub ↦ cc ]
    | inr h ↦ absurd (true-not_false (sym (subst (λ p. named name p ≡ true) clean h)))
  ]

-- Every history of steering and restoring that starts with no undo record, whatever networksetup and
-- the file system refuse in it, leaves each service with the servers that it had at the start, or with
-- those still to be given back from the record; only a service that had the address of the resolver
-- alone may end otherwise.
pub history-IsKept :
    (ss : List Step) (m : Machine) → m.snapshot ≡ none → IsKept m.settings (run ss m)
history-IsKept ss m fresh = steps-IsKept m.settings ss m (rw fresh ((λ n. inl (inl refl)), _))

-- After every history of steering and restoring that starts with no undo record, whatever was refused in
-- it, a restore that reports no error leaves no service in the record, and gives back to a service the
-- servers that it had at the start, where those were not the address of the resolver alone.
pub restore-back :
    (ss : List Step) (m : Machine) (w : NetworkSetup) (armed up : Bool) (name : Text)
    → m.snapshot ≡ none
    → (Restore.restore_system_dns w armed up (run ss m)).error ≡ none
    → Restore.only_offveil_stub (m.settings name) ≡ false
    → (record_of (Restore.restore_system_dns w armed up (run ss m)).machine.snapshot ≡ [])
      × ((Restore.restore_system_dns w armed up (run ss m)).machine.settings name ≡ m.settings name)
unfolding Restore.restore_system_dns
restore-back ss m w armed up name fresh clean other =
    let o = Restore.restore_from w armed up (load_snapshot w (run ss m)) (run ss m) in
    let (kept, ends) =
      restore_from-Ends m.settings w armed up (run ss m) (history-IsKept ss m fresh) in
    (ends clean, settled m.settings o.machine (ends clean) kept name other)
