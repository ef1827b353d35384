-- ===== src/Dns/Restore/Recoverable.antt =====
-- The settings of a service are as they were, or the undo record still has them.
use offveil.Prelude.{
  Bool, true, false, ◌||◌, Option, none, some, List, [], ◌∷◌, ◌++◌, ◌≡◌, ◌≢◌, ◌∙◌, ◌⊎◌, inl, inr,
  refl, sym, subst, Text, if◌then◌else◌, text_eq, text_eq→eq, All, All-append, append_assoc,
  append_nil, Bool-cases, arith,
}
use offveil.Netip.{Addr}
use offveil.Dns.Restore
use offveil.Dns.Restore.System.{ServiceDns, Snapshot, Machine, NetworkSetup, set_dns}

abbrev pub named : Text → List ServiceDns → Bool
named name [] = false
named name (s ∷ ss) = text_eq name s.name || named name ss

abbrev pub record_of : Option Snapshot → List ServiceDns
record_of none = []
record_of (some snap) = snap.services

module _ (orig : Text → List Addr) where
  -- The former setting, or nothing where that was the address of the resolver alone.
  abbrev pub Same : Text → List Addr → Type 0
  Same name v = (v ≡ orig name) ⊎ (Restore.only_offveil_stub (orig name) ≡ true)

  abbrev pub Kept : List ServiceDns → (Text → List Addr) → Type 0
  Kept p f = (name : Text) → Same name (f name) ⊎ (named name p ≡ true)

  abbrev pub Right : List ServiceDns → Type 0
  Right p = All (λ s. Same s.name (Restore.servers_of s)) p

  abbrev pub IsKept : Machine → Type 0
  IsKept m = Kept (record_of m.snapshot) m.settings × Right (record_of m.snapshot)

first_error-some : (e : Option Restore.Error) (f : Restore.Error) → Restore.first_error e f ≢ none
first_error-some none f h = cc h
first_error-some (some e) f h = cc h

pub named-drop :
    (name : Text) (s : ServiceDns) (xs ys : List ServiceDns)
    → text_eq name s.name ≡ false
    → named name (xs ++ (s ∷ ys)) ≡ named name (xs ++ ys)
named-drop name s [] ys e = rw e refl
named-drop name s (x ∷ xs) ys e = rw (named-drop name s xs ys e) refl

named-weaken :
    (name : Text) (s : ServiceDns) (xs ys : List ServiceDns)
    → named name (xs ++ ys) ≡ true
    → named name (xs ++ (s ∷ ys)) ≡ true
named-weaken name s [] ys h = ground arith
named-weaken name s (x ∷ xs) ys h = ground (arith, named-weaken name s xs ys)

give_one-named :
    (name : Text) (s : ServiceDns) (ss : List ServiceDns) (o : Option Machine)
    (p : Restore.RestoreProgress)
    → named name ((Restore.give_one s o p).pending ++ ss) ≡ true
    → named name (p.pending ++ (s ∷ ss)) ≡ true
give_one-named name s ss none p h =
    subst (λ ps. named name ps ≡ true) (append_assoc p.pending (s ∷ []) ss) h
give_one-named name s ss (some m) p h = named-weaken name s p.pending ss h

pub give_back-named :
    (w : NetworkSetup) (ss : List ServiceDns) (p : Restore.RestoreProgress) (name : Text)
    → named name (Restore.give_back w ss p).pending ≡ true
    → named name (p.pending ++ ss) ≡ true
unfolding Restore.give_back
give_back-named w [] p name h = subst (λ ps. named name ps ≡ true) (append_nil p.pending) h
give_back-named w (s ∷ ss) p name h =
    let o = set_dns w s.name (Restore.servers_of s) p.machine in
    give_one-named name s ss o p (give_back-named w ss (Restore.give_one s o p) name h)

pub give_back-snapshot :
    (w : NetworkSetup) (ss : List ServiceDns) (p : Restore.RestoreProgress)
    → (Restore.give_back w ss p).machine.snapshot ≡ p.machine.snapshot
unfolding Restore.give_back
give_back-snapshot w [] p = refl
give_back-snapshot w (s ∷ ss) p =
    let o = set_dns w s.name (Restore.servers_of s) p.machine in
    give_back-snapshot w ss (Restore.give_one s o p)
    ∙ elim (Bool-cases (w.set_fails s.name)) [ inl e ↦ rw e refl | inr e ↦ rw e refl ]

abbrev pub override : Text → List Addr → (Text → List Addr) → Text → List Addr
override name v f n = if text_eq n name then v else f n

module _ (orig : Text → List Addr) where
  Same-at :
      (n name : Text) (v : List Addr) → text_eq n name ≡ true → Same orig name v → Same orig n v
  Same-at n name v e h = subst (λ k. Same orig k v) (sym (text_eq→eq n name e)) h

  override-Kept :
      (s : ServiceDns) (xs ys : List ServiceDns) (f : Text → List Addr)
      → Same orig s.name (Restore.servers_of s)
      → Kept orig (xs ++ (s ∷ ys)) f
      → Kept orig (xs ++ ys) (override s.name (Restore.servers_of s) f)
  override-Kept s xs ys f r k n = elim (Bool-cases (text_eq n s.name)) [
    | inl e ↦ rw e (inl (Same-at n s.name (Restore.servers_of s) e r))
    | inr e ↦ rw e (subst (λ b. Same orig n (f n) ⊎ (b ≡ true)) (named-drop n s xs ys e) (k n))
  ]

  abbrev pub Gives : Restore.RestoreProgress → Type 0
  Gives p =
      Kept orig p.pending p.machine.settings
      × Right orig p.pending
      × (p.first ≡ none → p.pending ≡ [])

  abbrev pub Giving : List ServiceDns → Restore.RestoreProgress → Type 0
  Giving ss p =
      Kept orig (p.pending ++ ss) p.machine.settings
      × Right orig p.pending
      × (p.first ≡ none → p.pending ≡ [])

  give_one-Giving :
      (w : NetworkSetup) (s : ServiceDns) (ss : List ServiceDns) (p : Restore.RestoreProgress)
      → Same orig s.name (Restore.servers_of s)
      → Giving (s ∷ ss) p
      → Giving ss (Restore.give_one s (set_dns w s.name (Restore.servers_of s) p.machine) p)
  give_one-Giving w s ss p r (k, right, first) = elim (Bool-cases (w.set_fails s.name)) [
    | inl e ↦ rw e (
      subst (λ ps. Kept orig ps p.machine.settings) (sym (append_assoc p.pending (s ∷ []) ss)) k,
      All-append (λ t. Same orig t.name (Restore.servers_of t)) p.pending (s ∷ []) right (r, _),
      λ h. absurd (first_error-some p.first (Restore.set_failed s.name) h),
    )
    | inr e ↦ rw e (override-Kept s p.pending ss p.machine.settings r k, right, first)
  ]

  pub give_back-Gives :
      (w : NetworkSetup) (ss : List ServiceDns) (p : Restore.RestoreProgress)
      → Right orig ss
      → Giving ss p
      → Gives (Restore.give_back w ss p)
  unfolding Restore.give_back
  give_back-Gives w [] p r (k, right, first) = (rw (append_nil p.pending) k, right, first)
  give_back-Gives w (s ∷ ss) p (r, rs) g =
      give_back-Gives w ss
        (Restore.give_one s (set_dns w s.name (Restore.servers_of s) p.machine) p) rs
        (give_one-Giving w s ss p r g)
