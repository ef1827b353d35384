-- ===== src/Tunnel/Session/History.antt =====
-- The session and the selectors after any history of calls, and what may leave by the tunnel then.
use offveil.Prelude.{
  ◌≡◌, ◌≢◌, refl, sym, ap, ◌∙◌, inl, inr, Bool, true, false, not, ◌&&◌, ◌||◌, Option, none, some,
  List, [], ◌∷◌, Text, any, In, text_eq, text_eq_refl, lookup, insert, lookup-insert, Result, ok,
  err, Bool-cases, if-holds, some-injective, ok_inj,
}
use offveil.Tunnel.Types.{ProviderId, RealityCredentials, GroupRoute, path_desync, path_tunnel}
use offveil.Tunnel.Selective.Rules.{is_remote, path_is_tunnel}
use offveil.Tunnel.Session.{
  Session, SessionConfig, ProviderFailure, Launch, start_selective, start_paths, path_text,
  Selectors, initial, Call, succeeds, fails, switch, path_or_empty, started, then_start,
  with_control, provider_of, launched, not_up, launch_failed, set_group_path, close, Moved,
}
use offveil.Tunnel.Session.Aligned.{SameSide, IsAligned, IsClean, set_group_path-IsAligned}

-- A session, the selectors of its gateway, and what has happened since it was started.
pub data Run : SessionConfig → Session → Selectors → Type 0 where
  begins :
      {cfg : SessionConfig} {s : Session} (reality : Option RealityCredentials) (control : Bool)
      (outcome : Launch)
      → start_selective cfg reality control outcome ≡ ok s
      → Run cfg s (initial s.paths)
  moves :
      {cfg : SessionConfig} {s : Session} {selectors : Selectors} (first second undo : Call)
      (group path : Text)
      → IsClean first second undo
      → Run cfg s selectors
      → Run cfg
          (set_group_path first second undo group path s selectors).0
          (set_group_path first second undo group path s selectors).1
  closes :
      {cfg : SessionConfig} {s : Session} {selectors : Selectors}
      → Run cfg s selectors
      → Run cfg (close s) selectors

-- Every path is one of the two.
abbrev HasPaths : List (Text × Text) → Type 0
HasPaths paths = (id path : Text) → lookup id paths ≡ some path → (b : Bool) × (path ≡ path_text b)

no_paths : HasPaths []
unfolding lookup
no_paths id path h = cc

insert-HasPaths :
    (k : Text) (b : Bool) (m : List (Text × Text))
    → HasPaths m
    → HasPaths (insert k (path_text b) m)
insert-HasPaths k b m f id path h = elim (Bool-cases (text_eq k id)) [
  | inl e ↦
      let written : lookup id (insert k (path_text b) m) ≡ some (path_text b) =
        lookup-insert k id (path_text b) m ∙ rw e refl in
      let found : Path (Option Text) (some (path_text b)) (some path) = sym written ∙ h in
      (b, sym (some-injective _ _ found))
  | inr e ↦ f id path (sym (lookup-insert k id (path_text b) m ∙ rw e refl) ∙ h)
]

start_paths-HasPaths :
    (provider : ProviderId) (wanted : List (Text × Text)) (gs : List GroupRoute)
    (m : List (Text × Text))
    → HasPaths m
    → HasPaths (start_paths provider wanted gs m)
unfolding start_paths
start_paths-HasPaths provider wanted [] m f = f
start_paths-HasPaths provider wanted (g ∷ gs) m f =
    start_paths-HasPaths provider wanted gs _
      (insert-HasPaths g.id (is_remote provider && path_is_tunnel wanted g.id) m f)

-- Every group of a list has a path.
abbrev Has : Text → List (Text × Text) → Type 0
Has id m = lookup id m ≢ none

some-not_none : (v : Text) → Path (Option Text) (some v) none → ⊥
some-not_none v h = cc

insert-Has : (k id v : Text) (m : List (Text × Text)) → Has id m → Has id (insert k v m)
insert-Has k id v m h n = elim (Bool-cases (text_eq k id)) [
  | inl e ↦
      let w : lookup id (insert k v m) ≡ some v = lookup-insert k id v m ∙ rw e refl in
      some-not_none v (sym w ∙ n)
  | inr e ↦ h (sym (lookup-insert k id v m ∙ rw e refl) ∙ n)
]

insert-Has_self : (k v : Text) (m : List (Text × Text)) → Has k (insert k v m)
insert-Has_self k v m n =
    let w : lookup k (insert k v m) ≡ some v = lookup-insert k k v m ∙ rw (text_eq_refl k) refl in
    some-not_none v (sym w ∙ n)

start_paths-Has :
    (provider : ProviderId) (wanted : List (Text × Text)) (gs : List GroupRoute)
    (m : List (Text × Text)) (id : Text)
    → Has id m
    → Has id (start_paths provider wanted gs m)
unfolding start_paths
start_paths-Has provider wanted [] m id f = f
start_paths-Has provider wanted (g ∷ gs) m id f =
    start_paths-Has provider wanted gs _ id (insert-Has g.id id _ m f)

start_paths-In :
    (provider : ProviderId) (wanted : List (Text × Text)) (gs : List GroupRoute)
    (m : List (Text × Text)) (g : GroupRoute)
    → In g gs
    → Has g.id (start_paths provider wanted gs m)
unfolding start_paths
start_paths-In provider wanted [] m g i = absurd i
start_paths-In provider wanted (h ∷ hs) m g (inr i) = start_paths-In provider wanted hs _ g i
start_paths-In provider wanted (h ∷ hs) m g (inl e) =
    start_paths-Has provider wanted hs _ g.id (rw e (insert-Has_self h.id _ m))

started-paths :
    (cfg : SessionConfig) (outcome : Launch) (provider : ProviderId) (s : Session)
    → started cfg outcome provider ≡ ok s
    → s.paths ≡ start_paths provider cfg.group_paths cfg.groups []
started-paths cfg launched provider s h =
    ap (λ x. x.paths) (sym (ok_inj {E = ProviderFailure} _ s h))
started-paths cfg (not_up class) provider s h = cc
started-paths cfg (launch_failed class stage) provider s h = cc

with_control-paths :
    (control : Bool) (cfg : SessionConfig) (outcome : Launch) (provider : ProviderId) (s : Session)
    → with_control control cfg outcome provider ≡ ok s
    → s.paths ≡ start_paths provider cfg.group_paths cfg.groups []
with_control-paths control cfg outcome provider s h =
    elim (Bool-cases (is_remote provider && not control)) [
      | inl e ↦ let k : Path (Result ProviderFailure Session) (err _) (ok s) = rw e at h in cc
      | inr e ↦ started-paths cfg outcome provider s (rw e at h)
    ]

start_selective-paths :
    (cfg : SessionConfig) (reality : Option RealityCredentials) (control : Bool) (outcome : Launch)
    (s : Session)
    → start_selective cfg reality control outcome ≡ ok s
    → (provider : ProviderId) × (s.paths ≡ start_paths provider cfg.group_paths cfg.groups [])
unfolding start_selective
start_selective-paths cfg reality control outcome s h =
    then-paths (provider_of cfg reality cfg.tunnel_provider) h
  where
    then-paths :
        (r : Result ProviderFailure ProviderId)
        → then_start control cfg outcome r ≡ ok s
        → (provider : ProviderId) × (s.paths ≡ start_paths provider cfg.group_paths cfg.groups [])
    then-paths (err failure) k = cc
    then-paths (ok provider) k = (provider, with_control-paths control cfg outcome provider s k)

initial-SameSide :
    (paths : List (Text × Text)) (id path : Text) (b : Bool)
    → path ≡ path_text b
    → lookup id paths ≡ some path
    → SameSide (initial paths) id path
unfolding text_eq
initial-SameSide paths id path true p h = (true, p, λ n. rw (h, p) refl)
initial-SameSide paths id path false p h = (false, p, λ n. rw (h, p) refl)

switch-Has :
    (id group : Text) (first second undo : Call) (to : Bool) (s : Session) (selectors : Selectors)
    → Has id s.paths
    → Has id (switch first second undo to group s selectors).0.paths
switch-Has id group (fails did) second undo to s selectors h = h
switch-Has id group succeeds (fails did) undo to s selectors h = h
switch-Has id group succeeds succeeds undo to s selectors h =
    insert-Has group id (path_text to) s.paths h

set_group_path-Has :
    (id : Text) (first second undo : Call) (group path : Text) (s : Session) (selectors : Selectors)
    → Has id s.paths
    → Has id (set_group_path first second undo group path s selectors).0.paths
unfolding set_group_path
set_group_path-Has id first second undo group path s selectors a =
    let Keeps : Moved → Type 0 = λ m. Has id m.0.paths in
    if-holds Keeps s.closed _ _ (λ h. a)
      (λ h1.
        if-holds Keeps (not (any (text_eq group) s.groups)) _ _ (λ h. a)
          (λ h2.
            if-holds Keeps (text_eq (path_or_empty (lookup group s.paths)) path) _ _ (λ h. a)
              (λ h3.
                if-holds Keeps (not (is_remote s.provider) || not s.has_control) _ _ (λ h. a)
                  (λ h4.
                    if-holds Keeps (text_eq path path_tunnel) _ _
                      (λ e. switch-Has id group first second undo true s selectors a)
                      (λ h5.
                        if-holds Keeps (text_eq path path_desync) _ _
                          (λ e. switch-Has id group first second undo false s selectors a)
                          (λ h. a))))))

close-paths : (s : Session) → (close s).paths ≡ s.paths
unfolding close
close-paths s = elim (Bool-cases s.closed) [ inl e ↦ rw e refl | inr e ↦ rw e refl ]

-- Every group of the configuration keeps a path.
pub Run-Has :
    {cfg : SessionConfig} {s : Session} {selectors : Selectors} (g : GroupRoute)
    → In g cfg.groups
    → Run cfg s selectors
    → Has g.id s.paths
Run-Has {cfg = cfg} {s = s} g i (begins reality control outcome h) =
    let (provider, e) = start_selective-paths cfg reality control outcome s h in
    rw e (start_paths-In provider cfg.group_paths cfg.groups [] g i)
Run-Has g i (moves {s = s} {selectors = selectors} first second undo group path c run) =
    set_group_path-Has g.id first second undo group path s selectors (Run-Has g i run)
Run-Has g i (closes {s = s} run) = rw (close-paths s) (Run-Has g i run)

-- After any history of calls, refused ones and failed ones included, each group has the path `desync`
-- or `tunnel`, and the selectors of its TCP and its UDP are both those of that path, as long as a
-- call that fails has not switched its selector and the call that undoes one succeeds.
pub history-IsAligned :
    {cfg : SessionConfig} {s : Session} {selectors : Selectors}
    → Run cfg s selectors
    → IsAligned s selectors
history-IsAligned {cfg = cfg} {s = s} (begins reality control outcome h) id path l =
    let (provider, e) = start_selective-paths cfg reality control outcome s h in
    let (b, p) =
      start_paths-HasPaths provider cfg.group_paths cfg.groups [] no_paths id path (rw e at l) in
    initial-SameSide s.paths id path b p l
history-IsAligned (moves {s = s} {selectors = selectors} first second undo group new c run) id path
      l =
    set_group_path-IsAligned first second undo group new s selectors c (history-IsAligned run) id
      path l
history-IsAligned (closes {s = s} run) id path l =
    history-IsAligned run id path (rw (close-paths s) at l)
