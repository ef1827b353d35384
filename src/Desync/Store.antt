-- ===== src/Desync/Store.antt =====
-- The strategies that worked, by network: offveil-core/internal/desync/strategy_store.go. The file is a parameter: opening
-- has what it holds, and a save counts.
pub mod Trusted
mod Tests
use offveil.Prelude.{
  ℕ, suc, ◌+◌, ◌-◌, ◌*◌, ◌/◌, ◌≡◌, Bool, true, false, ◌||◌, List, [], ◌∷◌, Option, none, some, Text,
  codes, text_eq, is_empty, ltb, ◌==◌, if◌then◌else◌, lookup, insert, delete, hour, second, Result,
  ok, err,
}
use offveil.Desync.Chain.{Strategy}

abbrev pub strategy_store_ttl : ℕ
strategy_store_ttl = 7 * 24 * hour

-- PersistedStrategy.
pub record PersistedStrategy : Type 0 where
  pub asn : Text
  pub strategy_id : Text
  pub args : List Text
  pub host : Text
  pub updated_at : ℕ
  pub ttl_seconds : ℕ

pub record StrategyStore : Type 0 where
  pub entries : List (Text × PersistedStrategy)
  pub saves : ℕ

pub data StoreError : Type 0 where
  malformed_file store_refuses_empty : StoreError

-- What the file of the store holds: nothing, or entries that were read or could not be.
pub data Stored : Type 0 where
  missing unreadable : Stored
  holding : List (Text × PersistedStrategy) → Stored

-- OpenStrategyStore.
abbrev pub open_strategy_store : Stored → Result StoreError StrategyStore
open_strategy_store missing = ok (record { entries = []; saves = 0 })
open_strategy_store unreadable = err malformed_file
open_strategy_store (holding es) = ok (record { entries = es; saves = 0 })

-- normalizeASN of this package.
unfoldable pub asn_key : Text → Text
asn_key asn = if is_empty asn then codes "unknown" else asn

abbrev pub save_strategies : StrategyStore → StrategyStore
save_strategies s = record s { saves = suc s.saves }

abbrev pub trusted_for : PersistedStrategy → ℕ
trusted_for e = if e.ttl_seconds == 0 then strategy_store_ttl else e.ttl_seconds * second

abbrev strategy_of : PersistedStrategy → Option Strategy
strategy_of e =
    if is_empty e.strategy_id || is_empty e.args
    then none
    else some (record { id = e.strategy_id; args = e.args; note = codes "asn-cache" })

abbrev pub recall :
    Text → ℕ → Option PersistedStrategy → StrategyStore → StrategyStore × Option Strategy
recall key now none s = (s, none)
recall key now (some e) s =
    if ltb (trusted_for e) (now - e.updated_at)
    then (save_strategies (record s { entries = delete key s.entries }), none)
    else (s, strategy_of e)

-- Lookup.
unfoldable pub look_up_strategy : Text → ℕ → StrategyStore → StrategyStore × Option Strategy
look_up_strategy asn now s = let key = asn_key asn in recall key now (lookup key s.entries) s

abbrev pub persisted : Text → Strategy → Text → ℕ → PersistedStrategy
persisted key strat host now = record {
  asn = key;
  strategy_id = strat.id;
  args = strat.args;
  host = host;
  updated_at = now;
  ttl_seconds = strategy_store_ttl / second;
}

-- Put.
unfoldable pub put_strategy :
    Text → Strategy → Text → ℕ → StrategyStore → Result StoreError StrategyStore
put_strategy asn strat host now s =
    let key = asn_key asn in
    if is_empty strat.id || is_empty strat.args
    then err store_refuses_empty
    else ok (
        save_strategies
          (record s { entries = insert key (persisted key strat host now) s.entries }))

abbrev drop_key : Text → Option PersistedStrategy → StrategyStore → StrategyStore
drop_key key none s = s
drop_key key (some e) s = save_strategies (record s { entries = delete key s.entries })

-- Delete.
unfoldable pub delete_strategy : Text → StrategyStore → StrategyStore
delete_strategy asn s = let key = asn_key asn in drop_key key (lookup key s.entries) s
