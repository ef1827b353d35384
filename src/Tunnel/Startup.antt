-- ===== src/Tunnel/Startup.antt =====
-- startup.go: the start of the gateway's process, tried again where its adapter is still busy.
mod Tests
use offveil.Prelude.{
  ℕ, zero, suc, ◌+◌, ◌-◌, ◌≤◌, ◌≡◌, refl, ◌∙◌, Bool, true, false, not, ◌&&◌, ◌||◌, Option, none,
  some, List, [], ◌∷◌, Text, codes, if◌then◌else◌, text_eq, any, leb, Bool-cases, inl, inr, arith,
  if-holds,
}

-- One launch: a process, or an error with the reason of the process's exit if there is one.
pub data Attempt : Type 0 where
  came_up : Attempt
  launch_fails : Option Text → Attempt

-- How a start ends, and what it reports.
pub data Outcome : Type 0 where
  running timed_out : Outcome
  failing : Option Text → Outcome

pub record Started : Type 0 where
  pub outcome : Outcome
  pub attempts : ℕ

-- What happens in round `n`: whether the readiness is over before, after the launch and in the pause, and the launch.
pub record Rounds : Type 0 where
  pub over_before : ℕ → Bool
  pub launch : ℕ → Attempt
  pub over_after : ℕ → Bool
  pub over_in_pause : ℕ → Bool

unfoldable pub is_transient : Option Text → Bool
unfolding text_eq
is_transient none = false
is_transient (some reason) =
    any (text_eq reason)
      (codes "adapter_exists" ∷ codes "adapter_removing" ∷ codes "adapter_busy" ∷ [])

abbrev ended : Outcome → ℕ → Option Started
ended outcome attempts = some (record { outcome = outcome; attempts = attempts })

-- The part of a round behind the launch; `later` is the next round.
abbrev behind : Bool → Rounds → ℕ → Attempt → Option Started → Option Started
behind enabled r n came_up later = if r.over_after n then ended timed_out n else ended running n
behind enabled r n (launch_fails reason) later =
    if not enabled || not (is_transient reason) || leb 3 n
    then ended (failing reason) n
    else if r.over_in_pause n
    then ended timed_out n
    else later

-- The loop from round `n` on; none where the fuel is used up.
unfoldable pub rounds_from : ℕ → ℕ → Bool → Rounds → Option Started
unfolding is_transient
rounds_from zero n enabled r = none
rounds_from (suc fuel) n enabled r =
    let later = rounds_from fuel (suc n) enabled r in
    if r.over_before n then ended timed_out (n - 1) else behind enabled r n (r.launch n) later

-- startWithTUNRetry; three rounds are enough.
unfoldable pub start_with_tun_retry : Bool → Rounds → Option Started
unfolding rounds_from
start_with_tun_retry enabled r = rounds_from 3 1 enabled r

-- A start within bounds.
abbrev Within : ℕ → Option Started → Type 0
Within limit o = (s : Started) × (o ≡ some s) × (s.attempts ≤ limit)

behind-Within :
    (enabled : Bool) (r : Rounds) (n limit : ℕ) (a : Attempt) (later : Option Started)
    → n ≤ limit
    → ((enabled ≡ true) → leb 3 n ≡ false → Within limit later)
    → Within limit (behind enabled r n a later)
behind-Within enabled r n limit came_up later h f =
    if-holds (Within limit) (r.over_after n) _ _ (λ e. (_, refl, h)) (λ e. (_, refl, h))
behind-Within enabled r n limit (launch_fails reason) later h f =
    if-holds (Within limit) (not enabled || not (is_transient reason) || leb 3 n) _ _
      (λ e. (_, refl, h))
      (λ e.
        if-holds (Within limit) (r.over_in_pause n) _ _ (λ k. (_, refl, h))
          (λ k. f (ground (arith, e)) (ground (arith, e))))

rounds-Within :
    (fuel n limit : ℕ) (enabled : Bool) (r : Rounds)
    → n ≤ limit
    → ((enabled ≡ true) → leb 3 n ≡ false → Within limit (rounds_from fuel (suc n) enabled r))
    → Within limit (rounds_from (suc fuel) n enabled r)
unfolding rounds_from
rounds-Within fuel n limit enabled r h f =
    if-holds (Within limit) (r.over_before n) _ _ (λ e. (_, refl, ground arith))
      (λ e. behind-Within enabled r n limit (r.launch n) _ h f)

-- The loop of a start ends, after at most three launches, and after at most one where it is not to be
-- tried again.
pub start_with_tun_retry_ends :
    (enabled : Bool) (r : Rounds)
    → (s : Started) × (start_with_tun_retry enabled r ≡ some s)
      × (s.attempts ≤ 3)
      × (enabled ≡ false → s.attempts ≤ 1)
unfolding start_with_tun_retry
start_with_tun_retry_ends enabled r = elim (Bool-cases enabled) [
  | inr e ↦
      let (s, k, b) = rounds-Within 2 1 1 enabled r (omega arith) (λ t. cc) in
      (s, k, omega arith, λ f. b)
  | inl e ↦
      let (s, k, b) = rounds-Within 2 1 3 enabled r (omega arith) (λ t l.
        rounds-Within 1 2 3 enabled r (omega arith)
          (λ t2 l2. rounds-Within 0 3 3 enabled r (omega arith) (λ t3 l3. cc))) in
      (s, k, b, λ f. cc)
]
