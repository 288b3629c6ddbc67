-- ===== src/DataFeed/Tests.antt =====
-- Series of quotes and bars, and the theorems at them.
use nexus_trading.Base.{ℕ, ◌≡◌, refl, none, some, List, [], ◌∷◌, map, last, pos, arith, ◌+◌}
use nexus_trading.Supervisor.Tests.{cents}
use nexus_trading.DataFeed.Ticks.{
  Event, quotes, bars, adds_tick_handler, subscribes, new_feed, on_quote, on_bar, subscribe,
  get_latest_tick, get_tick_history, from_end, step, run,
}
use nexus_trading.DataFeed.Caches.{part, map_option, newest, quotes_of, numbered}
use nexus_trading.DataFeed.Runs.{caches_lem}
use nexus_trading.DataFeed.Sequence.{check_sequence_gaps, gaps_of}
use nexus_trading.DataFeed.Gaps.{gaps_lem}

abbrev quote : ℕ → ℕ → Event cents
quote s price = quotes 9 (record {
  symbol = s;
  timestamp = none;
  bid_price = some (pos price);
  ask_price = some (pos (price + 1));
})

abbrev closes : ℕ → ℕ → Event cents
closes s price = bars 9 (record {
  symbol = s;
  timestamp = none;
  open_price = none;
  high = none;
  low = none;
  close = some (pos price);
  volume = some 700;
  vwap = none;
})

abbrev same : ℕ → ℕ
same s = s

-- One quote of the symbol 1 and a bar.
abbrev morning : List (Event cents)
morning = adds_tick_handler 4 ∷ subscribes (1 ∷ 2 ∷ []) ∷ quote 1 100 ∷ closes 1 150 ∷ []

-- Two more, and one of another symbol.
abbrev noon : List (Event cents)
noon = quote 1 101 ∷ quote 2 500 ∷ quote 1 102 ∷ []

-- The last price of a tick is the close of the bar before it.
last_of_bar :
    map_option
      (λ t. t.last)
      (get_latest_tick same 1 (run same noon (run same morning (new_feed cents 2))))
    ≡ some (pos 150)
unfolding run step new_feed on_quote on_bar subscribe get_latest_tick
last_of_bar = refl

caches_lem_example :
    (map_option part (get_latest_tick same 1 (run same morning (new_feed cents 2)))
      ≡ newest (numbered 0 (quotes_of 1 morning)))
    × (map part (get_tick_history same 1 5 (run same morning (new_feed cents 2)))
        ≡ from_end 5 (last 2 (numbered 0 (quotes_of 1 morning))))
caches_lem_example = caches_lem same 2 morning 1 5 refl

-- No tick is missing, and a gap is reported.
gaps_lem_example :
    gaps_of 1
      (check_sequence_gaps same
        (1 ∷ [])
        (run same noon (run same morning (new_feed cents 2)))
        (check_sequence_gaps same (1 ∷ []) (run same morning (new_feed cents 2)) []).1).0
    ≡ record { symbol = 1; last_seq = 0; current_seq = 2 } ∷ []
gaps_lem_example = gaps_lem same 2 morning noon (1 ∷ []) 1 [] refl refl (omega arith)
