-- ===== src/Desync/Store/Tests.antt =====
-- A strategy that is kept for its network.
use offveil.Prelude.{◌≡◌, refl, [], ◌∷◌, codes, hour, insert, ok}
use offveil.Desync.Chain.{Strategy}
use offveil.Desync.Store.{StrategyStore, asn_key, persisted, put_strategy}

abbrev sni : Strategy
sni = record { id = codes "sni"; args = codes "--split" ∷ codes "1+s" ∷ []; note = [] }

abbrev none_yet : StrategyStore
none_yet = record { entries = []; saves = 0 }

abbrev one : StrategyStore
one = record {
  entries = (codes "9121", persisted (codes "9121") sni (codes "chat.net") hour) ∷ [];
  saves = 1;
}

put_one : put_strategy (codes "9121") sni (codes "chat.net") hour none_yet ≡ ok one
unfolding put_strategy asn_key insert
put_one = refl
