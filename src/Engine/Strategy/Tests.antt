-- ===== src/Engine/Strategy/Tests.antt =====
-- A search at a sample engine.
use offveil.Prelude.{◌≡◌, refl, true, false, none, Text, List, [], ◌∷◌, codes}
use offveil.Engine.Core.{Engine}
use offveil.Engine.Samples.{running}
use offveil.Engine.Strategy.{Search, cleanup_fails, scan_result, begin_scan, still_same}
use offveil.Engine.Strategy.Ends.{search_stuck}

abbrev search : Search
search = record { helper = 5; gateway = 6 }

abbrev searching : Engine
searching = record running { desync_scan = true; group_work = true }

abbrev trials : List Text
trials = codes "split" ∷ codes "fake" ∷ []

search_stuck_example :
    let f = (scan_result 3 (codes "chat") search false trials cleanup_fails searching).0 in
    (f.desync_scan ≡ true) × ((begin_scan 3 (codes "voice") f).1 ≡ none)
unfolding still_same
search_stuck_example =
    search_stuck 3 3 (codes "chat") (codes "voice") search trials searching refl refl refl
