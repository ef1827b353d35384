-- ===== src/Tunnel/Session/Aligned.antt =====
-- The selectors of the gateway's process and the paths of the session, over any history of calls.
use offveil.Prelude.{
  ◌≡◌, ◌≢◌, refl, sym, ap, ◌∙◌, inl, inr, Bool, true, false, not, ◌||◌, Option, some, Text, any,
  text_eq, text_eq→eq, lookup, insert, lookup-insert, Bool-cases, if-holds, some-injective,
}
use offveil.Tunnel.Types.{Network, tcp, udp, Tag, path_desync, path_tunnel}
use offveil.Tunnel.Selective.Rules.{is_remote, default_of}
use offveil.Tunnel.Session.{
  Session, path_text, Selectors, choose, Call, succeeds, fails, switch, path_or_empty,
  set_group_path, Moved, commit,
}

-- The selectors of a group are those of its path: TCP and UDP on one side.
abbrev pub SameSide : Selectors → Text → Text → Type 0
SameSide selectors id path =
    (b : Bool) × (path ≡ path_text b) × ((n : Network) → selectors id n ≡ default_of b n)

abbrev pub IsAligned : Session → Selectors → Type 0
IsAligned s selectors =
    (id path : Text) → lookup id s.paths ≡ some path → SameSide selectors id path

-- A failed call has not switched its selector, and the undoing one succeeds.
abbrev pub IsClean : Call → Call → Call → Type 0
IsClean first second undo = (first ≢ fails true) × (second ≢ fails true) × (undo ≡ succeeds)

pub path_text-distinct : (a b : Bool) → text_eq (path_text a) (path_text b) ≡ false → a ≡ not b
unfolding text_eq
path_text-distinct true true h = cc
path_text-distinct true false h = refl
path_text-distinct false true h = refl
path_text-distinct false false h = cc

-- A selector of another group is not changed, nor is one of the other network.
choose-other :
    (id j : Text) (n m : Network) (t : Tag) (s : Selectors)
    → text_eq id j ≡ false
    → choose id n t s j m ≡ s j m
unfolding choose
choose-other id j n m t s h = rw h refl

-- Both selectors of a group, chosen anew.
choose-both :
    (id j : Text) (b : Bool) (s : Selectors) (n : Network)
    → text_eq id j ≡ true
    → choose id udp (default_of b udp) (choose id tcp (default_of b tcp) s) j n ≡ default_of b n
unfolding choose
choose-both id j b s tcp h = rw h refl
choose-both id j b s udp h = rw h refl

choose-back :
    (id j : Text) (b a : Bool) (s : Selectors) (n : Network)
    → text_eq id j ≡ true
    → s j n ≡ default_of b n
    → choose id tcp (default_of b tcp) (choose id tcp (default_of a tcp) s) j n ≡ default_of b n
unfolding choose
choose-back id j b a s tcp h k = rw h refl
choose-back id j b a s udp h k = rw h k

module _ (group : Text) (to : Bool) (s : Session) (selectors : Selectors)
    (aligned : IsAligned s selectors) where
  committed-IsAligned :
      IsAligned
        (commit group (path_text to) s)
        (choose group udp (default_of to udp) (choose group tcp (default_of to tcp) selectors))
  committed-IsAligned id path h = elim (Bool-cases (text_eq group id)) [
    | inl e ↦
        let written : lookup id (insert group (path_text to) s.paths) ≡ some (path_text to) =
          lookup-insert group id (path_text to) s.paths ∙ rw e refl in
        let found : Path (Option Text) (some (path_text to)) (some path) = sym written ∙ h in
        (to, sym (some-injective _ _ found), λ n. choose-both group id to selectors n e)
    | inr e ↦
        let old : lookup id s.paths ≡ some path =
          sym (lookup-insert group id (path_text to) s.paths ∙ rw e refl) ∙ h in
        let (b, p, f) = aligned id path old in
        (b, p, λ n. choose-other group id udp n _ _ e ∙ choose-other group id tcp n _ _ e ∙ f n)
  ]

  undone-IsAligned :
      ((path : Text) → lookup group s.paths ≡ some path → text_eq path (path_text to) ≡ false)
      → IsAligned s (
          choose group tcp
            (default_of (not to) tcp)
            (choose group tcp (default_of to tcp) selectors))
  undone-IsAligned other id path h =
      let (b, p, f) = aligned id path h in
      elim (Bool-cases (text_eq group id)) [
        | inl e ↦
            let g : group ≡ id = text_eq→eq group id e in
            let differs = other path (rw g h) in
            let k : b ≡ not to = path_text-distinct b to (rw p at differs) in
            (
              not to,
              p ∙ ap path_text k,
              λ n.
                  choose-back group id (not to) to selectors n e (f n ∙ ap (λ x. default_of x n) k),
            )
        | inr e ↦
            (b, p, λ n. choose-other group id tcp n _ _ e ∙ choose-other group id tcp n _ _ e ∙ f n)
      ]

  pub switch-IsAligned :
      (first second undo : Call)
      → IsClean first second undo
      → ((path : Text) → lookup group s.paths ≡ some path → text_eq path (path_text to) ≡ false)
      → let moved = switch first second undo to group s selectors in IsAligned moved.0 moved.1
  switch-IsAligned (fails true) second undo (a, b, u) other = absurd (a refl)
  switch-IsAligned (fails false) second undo c other = aligned
  switch-IsAligned succeeds (fails true) undo (a, b, u) other = absurd (b refl)
  switch-IsAligned succeeds (fails false) (fails did) (a, b, u) other = cc
  switch-IsAligned succeeds (fails false) succeeds c other = undone-IsAligned other
  switch-IsAligned succeeds succeeds undo c other = committed-IsAligned

differs-target :
    (o : Option Text) (old path target : Text)
    → o ≡ some old
    → text_eq (path_or_empty o) path ≡ false
    → text_eq path target ≡ true
    → text_eq old target ≡ false
differs-target o old path target f h e =
    let g : path ≡ target = text_eq→eq path target e in
    let k : text_eq old path ≡ false = rw f at h in rw (← g) k

-- A call of SetGroupPath keeps the selectors aligned, whatever its group and path are.
pub set_group_path-IsAligned :
    (first second undo : Call) (group path : Text) (s : Session) (selectors : Selectors)
    → IsClean first second undo
    → IsAligned s selectors
    → let moved = set_group_path first second undo group path s selectors in
      IsAligned moved.0 moved.1
unfolding set_group_path
set_group_path-IsAligned first second undo group path s selectors c a =
    let Keeps : Moved → Type 0 = λ m. IsAligned m.0 m.1 in
    if-holds Keeps s.closed _ _ (λ h. a)
      (λ h1.
        if-holds Keeps (not (any (text_eq group) s.groups)) _ _ (λ h. a)
          (λ h2.
            if-holds Keeps (text_eq (path_or_empty (lookup group s.paths)) path) _ _ (λ h. a)
              (λ h3.
                if-holds Keeps (not (is_remote s.provider) || not s.has_control) _ _ (λ h. a)
                  (λ h4.
                    if-holds Keeps (text_eq path path_tunnel) _ _
                      (λ e.
                        switch-IsAligned group true s selectors a first second undo c
                          (λ old f. differs-target _ old path path_tunnel f h3 e))
                      (λ h5.
                        if-holds Keeps (text_eq path path_desync) _ _
                          (λ e.
                            switch-IsAligned group false s selectors a first second undo c
                              (λ old f. differs-target _ old path path_desync f h3 e))
                          (λ h. a))))))
