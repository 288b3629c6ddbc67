-- ===== src/DarkPool/Tests.antt =====
-- Concrete orders through the engine, in whole numbers.
use nexus_trading.Base.{ℕ, ◌+◌, ◌≡◌, refl, false, [], ◌∷◌, pos, Result, ok, err}
use nexus_trading.DarkPool.Ats.{
  retail, other_side, IncomingOrder, CrossedTrade, Parameters, DarkPoolAts, no_stats, new_ats,
  route, Error,
}
use nexus_trading.DarkPool.Routes.{Routed, route_lem, long_of}
use nexus_trading.DarkPool.Runs.{
  routes, updates, run, run-stats, shares_leave, tally, crossed_shares, only_routes,
}
use nexus_trading.Fpga.Tests.{cents-Division}
use nexus_trading.Supervisor.Tests.{cents}

abbrev parameters : Parameters cents
parameters = record {
  max_qty = 10000;
  min_spread_bps = pos 1;
  internalize_arb = false;
  pfof_payment_per_share = pos 1;
  exchange_fee_per_share = pos 3;
}

-- A retail client sells 100 shares.
abbrev sale : IncomingOrder cents
sale = record {
  order_id = 1;
  symbol = 7;
  side = other_side "sell";
  qty = 100;
  limit_price = pos 0;
  flow_type = retail;
}

abbrev stocked : DarkPoolAts cents
stocked = record {
  inventory = (7, record { long_qty = 500; short_qty = 0; avg_cost = pos 1000 }) ∷ [];
  trades = [];
  stats = no_stats cents;
}

abbrev long_after : Result Error (CrossedTrade cents × DarkPoolAts cents) → ℕ
long_after (ok r) = long_of 7 (r.1).inventory
long_after (err _) = 0

-- The engine buys 100 shares and has 100 fewer.
purchase_reduces : long_after (route cents parameters sale (pos 1000) (pos 3010) stocked) ≡ 400
unfolding route
purchase_reduces = refl

route_lem_example :
    (t : CrossedTrade cents) × (a' : DarkPoolAts cents) × (route cents parameters sale
        (pos 1000)
        (pos 3010)
        stocked
      ≡ ok (t, a'))
    × Routed parameters sale (pos 1000) (pos 3010) stocked t a'
route_lem_example = route_lem parameters sale (pos 1000) (pos 3010) stocked cents-Division

run-stats_example :
    (a : DarkPoolAts cents) × (run cents parameters
        (updates 7 500 0 (pos 1000) ∷ routes sale (pos 1000) (pos 3010) ∷ [])
        (new_ats cents)
      ≡ ok a)
    × (a.stats ≡ tally cents a.trades (no_stats cents))
run-stats_example =
    run-stats parameters (updates 7 500 0 (pos 1000) ∷ routes sale (pos 1000) (pos 3010) ∷ [])
      cents-Division

shares_leave_case :
    (a' : DarkPoolAts cents) × (run cents parameters
        (only_routes cents ((sale, pos 1000, pos 3010) ∷ []))
        stocked
      ≡ ok a')
    × (long_of 7 a'.inventory + crossed_shares cents 7 a'.trades ≡ 500 + 0)
shares_leave_case =
    shares_leave parameters ((sale, pos 1000, pos 3010) ∷ []) stocked 7 cents-Division
