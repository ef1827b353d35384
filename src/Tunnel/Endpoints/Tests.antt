-- ===== src/Tunnel/Endpoints/Tests.antt =====
-- A profile with its own endpoint and a remembered one, of which the second candidate passes.
use offveil.Prelude.{
  ◌≡◌, ◌≢◌, ◌≤◌, refl, none, some, List, [], ◌∷◌, Text, codes, In, length, take, ℕ, zero, suc, inl,
  inr, text_eq, lookup, if◌then◌else◌,
}
use offveil.Tunnel.Types.{WarpProfile}
use offveil.Tunnel.Session.{fail_timeout, no_stage}
use offveil.Tunnel.Endpoints.{
  Trial, passed, missed, warp_endpoint_candidates, preflight, pinned, preflight_candidates,
  remembered_endpoint,
}
use offveil.Tunnel.Endpoints.Preflight.{Distinct, HasPort, preflight_lem}

abbrev profile : WarpProfile
profile = record {
  address_ipv4 = codes "172.16.0.2";
  address_ipv6 = [];
  endpoint_host = [];
  endpoint_ipv4 = codes "162.159.192.1:0";
}

abbrev remembered : Text
remembered = codes "162.159.193.10:500"

candidates :
    take 2 (warp_endpoint_candidates (some profile) remembered)
    ≡ codes "162.159.193.10:500" ∷ codes "162.159.192.1:2408" ∷ []
unfolding warp_endpoint_candidates
candidates = refl

-- The second candidate passes, and the trials of the first two come in.
abbrev attempt : Text → Trial
attempt e = if text_eq e (codes "162.159.192.1:2408") then passed else missed fail_timeout no_stage

abbrev saved : List (Text × Text)
saved = (codes "home", remembered) ∷ []

take-In : (n : ℕ) (es : List Text) (e : Text) → In e (take n es) → In e es
take-In zero es e i = absurd i
take-In (suc n) [] e i = absurd i
take-In (suc n) (x ∷ es) e (inl h) = inl h
take-In (suc n) (x ∷ es) e (inr i) = inr (take-In n es e i)

won :
    (preflight attempt (take 2) profile (codes "home") saved).profile
    ≡ some (pinned profile (codes "162.159.192.1:2408"))
unfolding preflight preflight_candidates warp_endpoint_candidates remembered_endpoint text_eq lookup
won = refl

preflight_lem_example :
    let out = preflight attempt (take 2) profile (codes "home") saved in
    let candidates = preflight_candidates profile (codes "home") saved in
    Distinct candidates
    × ((e : Text) → In e candidates → HasPort e)
    × ((v : WarpProfile)
        → out.profile ≡ some v
        → (e : Text) × In e candidates
          × (attempt e ≡ passed)
          × (v ≡ pinned profile e)
          × ((rest : List Text) × (preflight_candidates profile (codes "home") out.saved
                ≡ e ∷ rest))
          × (length out.saved ≤ 33))
    × ((e : Text) → In e (take 2 candidates) → attempt e ≡ passed → out.profile ≢ none)
preflight_lem_example =
    preflight_lem attempt (take 2) profile profile (codes "home") saved (take-In 2)
