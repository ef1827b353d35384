-- ===== src/Tunnel/Providers/Failover.antt =====
-- What the session of a start with several providers reports.
use offveil.Prelude.{
  ◌≡◌, ◌≢◌, ◌⊎◌, refl, sym, ap, ◌∙◌, append_assoc, append_nil, inl, inr, Bool, true, false, Option,
  List, [], ◌∷◌, ◌++◌, Text, All,
}
use offveil.Tunnel.Types.{ProviderId}
use offveil.Tunnel.Session.{FailClass, Stage, ProviderFailure}
use offveil.Tunnel.Providers.{
  Launched, came_up, fails_with, Provided, Progress, failed, failure_of, after, try_each,
  provider_order, start_providers, failover_enabled,
}

-- The failures that the launches of some providers report; a launch that came up reports none.
abbrev failure_list : ProviderId → Launched → List ProviderFailure
failure_list p came_up = []
failure_list p (fails_with class stage detail) = failure_of p class stage ∷ []

abbrev failures_of : (ProviderId → Launched) → List ProviderId → List ProviderFailure
failures_of launch [] = []
failures_of launch (p ∷ ps) = failure_list p (launch p) ++ failures_of launch ps

abbrev Fails : (ProviderId → Launched) → ProviderId → Type 0
Fails launch p = launch p ≢ came_up

-- The session is that of the first provider that came up, or none did; `before` are failures of earlier rounds.
abbrev pub IsFirstUp :
    (ProviderId → Launched) → List ProviderFailure → List ProviderId → Provided → Type 0
IsFirstUp launch before order s =
    ((earlier later : List ProviderId) × (p : ProviderId) × (order ≡ earlier ++ (p ∷ later))
      × All (Fails launch) earlier
      × (launch p ≡ came_up)
      × (s.provider ≡ p)
      × (s.up ≡ true)
      × (s.retry_hint ≡ false)
      × (s.failures ≡ before ++ failures_of launch earlier))
    ⊎ (All (Fails launch) order
        × (s.up ≡ false)
        × (s.retry_hint ≡ true)
        × (s.failures ≡ before ++ failures_of launch order))

fails :
    (launch : ProviderId → Launched) (p : ProviderId) (c : FailClass) (g : Stage) (d : Text)
    → launch p ≡ fails_with c g d
    → Fails launch p
fails launch p c g d e h = let k : Path Launched (fails_with c g d) came_up = sym e ∙ h in cc

-- One more failed provider in front.
behind :
    (launch : ProviderId → Launched) (before : List ProviderFailure) (p : ProviderId)
    (ps : List ProviderId) (s : Provided) (c : FailClass) (g : Stage) (d : Text)
    → launch p ≡ fails_with c g d
    → IsFirstUp launch (before ++ (failure_of p c g ∷ [])) ps s
    → IsFirstUp launch before (p ∷ ps) s
behind launch before p ps s c g d e (inl (earlier, later, q, o, fs, u, v, w, x, y)) = inl (
  p ∷ earlier,
  later,
  q,
  ap (λ xs. p ∷ xs) o,
  (fails launch p c g d e, fs),
  u,
  v,
  w,
  x,
  rw e (y ∙ append_assoc before (failure_of p c g ∷ []) (failures_of launch earlier)),
)
behind launch before p ps s c g d e (inr (fs, v, w, y)) = inr (
  (fails launch p c g d e, fs),
  v,
  w,
  rw e (y ∙ append_assoc before (failure_of p c g ∷ []) (failures_of launch ps)),
)

after-IsFirstUp :
    (launch : ProviderId → Launched) (p : ProviderId) (ps : List ProviderId) (m : Progress)
    (later : Progress → Provided)
    → ((n : Progress) → IsFirstUp launch n.failures ps (later n))
    → (l : Launched) → launch p ≡ l
    → IsFirstUp launch m.failures (p ∷ ps) (after l p m later)
after-IsFirstUp launch p ps m later f came_up e =
    inl ([], ps, p, refl, tt, e, refl, refl, refl, append_nil m.failures)
after-IsFirstUp launch p ps m later f (fails_with c g d) e =
    behind launch m.failures p ps (later (failed p c g d m)) c g d e (f (failed p c g d m))

try_each-IsFirstUp :
    (all_failed : Text) (launch : ProviderId → Launched) (last : ProviderId) (ps : List ProviderId)
    (m : Progress)
    → IsFirstUp launch m.failures ps (try_each all_failed launch last ps m)
unfolding try_each
try_each-IsFirstUp all_failed launch last [] m = inr (tt, refl, refl, append_nil m.failures)
try_each-IsFirstUp all_failed launch last (p ∷ ps) m =
    after-IsFirstUp launch p ps m (λ n. try_each all_failed launch p ps n)
      (λ n. try_each-IsFirstUp all_failed launch p ps n) (launch p) refl

-- Start reports the session of the first provider of the order that came up, with the failures of exactly
-- those before it and no hint to try again; or, where none came up, a session that is not up, with the
-- failures of all of them and the hint.
pub start_providers_lem :
    (all_failed : Text) (launch : ProviderId → Launched) (reality : Bool) (failover : Option Bool)
    → IsFirstUp launch []
        (provider_order reality (failover_enabled failover))
        (start_providers all_failed launch reality failover)
unfolding start_providers
start_providers_lem all_failed launch reality failover = try_each-IsFirstUp all_failed launch _ _ _
