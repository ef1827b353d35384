-- ===== src/Desync/Store/Trusted.antt =====
-- What the store of strategies returns.
use offveil.Prelude.{
  ℕ, ◌-◌, ◌≡◌, refl, sym, ap, subst, ◌∙◌, false, ◌||◌, Option, none, some, Text, codes, text_eq,
  text_eq_refl, is_empty, ltb, if◌then◌else◌, lookup, insert, lookup-insert, lookup-delete, Result,
  ok, arith, Bool-cases, inl, inr,
}
use offveil.Desync.Chain.{Strategy}
use offveil.Desync.Store.{
  strategy_store_ttl, PersistedStrategy, StrategyStore, asn_key, recall, look_up_strategy,
  persisted, put_strategy, delete_strategy, drop_key, StoreError, trusted_for, strategy_of,
  save_strategies,
}

abbrev pub kept_for : ℕ → ℕ → Strategy → Option Strategy
kept_for stored now strat =
    if ltb strategy_store_ttl (now - stored)
    then none
    else some (record strat { note = codes "asn-cache" })

recalled : ℕ → Option PersistedStrategy → Option Strategy
recalled now none = none
recalled now (some e) = if ltb (trusted_for e) (now - e.updated_at) then none else strategy_of e

recalled-none : (now : ℕ) → recalled now none ≡ none
unfolding recalled
recalled-none now = refl

recall-recalled :
    (key : Text) (now : ℕ) (found : Option PersistedStrategy) (s : StrategyStore)
    → (recall key now found s).1 ≡ recalled now found
unfolding recalled
recall-recalled key now none s = refl
recall-recalled key now (some e) s = ground arith

recalled-persisted :
    (key host : Text) (strat : Strategy) (stored now : ℕ)
    → is_empty strat.id || is_empty strat.args ≡ false
    → recalled now (some (persisted key strat host stored)) ≡ kept_for stored now strat
unfolding recalled
recalled-persisted key host strat stored now f = ground (arith, f)

drop-absent :
    (key : Text) (found : Option PersistedStrategy) (t : StrategyStore)
    → lookup key t.entries ≡ found
    → lookup key (drop_key key found t).entries ≡ none
drop-absent key none t h = h
drop-absent key (some e) t h = lookup-delete key key t.entries ∙ ground (arith, text_eq_refl key)

ok_store : (a b : StrategyStore) → Path (Result StoreError StrategyStore) (ok a) (ok b) → a ≡ b
ok_store a b e = cc e

abbrev written : Text → Text → Strategy → ℕ → StrategyStore → StrategyStore
written asn host strat stored s = save_strategies (record s {
  entries = insert (asn_key asn) (persisted (asn_key asn) strat host stored) s.entries;
})

put-written :
    (asn host : Text) (strat : Strategy) (stored : ℕ) (s t : StrategyStore)
    → put_strategy asn strat host stored s ≡ ok t
    → (is_empty strat.id || is_empty strat.args ≡ false) × (written asn host strat stored s ≡ t)
unfolding put_strategy
put-written asn host strat stored s t h =
    elim (Bool-cases (is_empty strat.id || is_empty strat.args)) [
      | inl bad ↦ cc (simp bad at h)
      | inr good ↦ (good, ok_store _ t (simp good at h))
    ]

written-found :
    (asn other host : Text) (strat : Strategy) (stored now : ℕ) (s : StrategyStore)
    → is_empty strat.id || is_empty strat.args ≡ false
    → (look_up_strategy other now (written asn host strat stored s)).1 ≡ (
        if text_eq (asn_key asn) (asn_key other)
        then kept_for stored now strat
        else (look_up_strategy other now s).1)
unfolding look_up_strategy
written-found asn other host strat stored now s f =
    recall-recalled _ now _ _
    ∙ ap (recalled now) (lookup-insert (asn_key asn) (asn_key other) _ s.entries)
    ∙ found
  where
    found :
        recalled now (
          if text_eq (asn_key asn) (asn_key other)
          then some (persisted (asn_key asn) strat host stored)
          else lookup (asn_key other) s.entries)
        ≡ (if text_eq (asn_key asn) (asn_key other)
            then kept_for stored now strat
            else (recall (asn_key other) now (lookup (asn_key other) s.entries) s).1)
    found = elim (Bool-cases (text_eq (asn_key asn) (asn_key other))) [
      | inl e ↦ simp e (recalled-persisted (asn_key asn) host strat stored now f)
      | inr e ↦ simp e (sym (recall-recalled (asn_key other) now _ s))
    ]

-- A strategy that was put is found for seven days under the name of its network and under no other;
-- after them, and once it is deleted, there is none. An empty strategy is refused.
pub put_strategy_lem :
    (asn other host : Text) (strat : Strategy) (stored now : ℕ) (s t : StrategyStore)
    → put_strategy asn strat host stored s ≡ ok t
    → ((look_up_strategy other now t).1 ≡ (
        if text_eq (asn_key asn) (asn_key other)
        then kept_for stored now strat
        else (look_up_strategy other now s).1))
      × ((look_up_strategy asn now (delete_strategy asn t)).1 ≡ none)
      × (is_empty strat.id ≡ false)
      × (is_empty strat.args ≡ false)
unfolding look_up_strategy delete_strategy
put_strategy_lem asn other host strat stored now s t h =
    let (good, e) = put-written asn host strat stored s t h in
    (
      subst
          (λ u. (look_up_strategy other now u).1 ≡ (
            if text_eq (asn_key asn) (asn_key other)
            then kept_for stored now strat
            else (look_up_strategy other now s).1))
          e (written-found asn other host strat stored now s good),
      recall-recalled _ now _ _
          ∙ ap (recalled now) (drop-absent (asn_key asn) _ t refl)
          ∙ recalled-none now,
      ground (arith, good),
      ground (arith, good),
    )
