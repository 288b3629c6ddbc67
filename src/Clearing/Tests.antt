-- ===== src/Clearing/Tests.antt =====
-- The example of the engine's docstring and the theorems at concrete trades.
use nexus_trading.Base.{negsuc, ◌≤◌, ◌≡◌, refl, some, [], ◌∷◌, pos, negsuc, ◌+ℤ◌, find}
use nexus_trading.Clearing.Engine.{
  buy, sell, sell_short, buy_to_cover, submit_trade, init, pending, Engine, net_positions,
  netting_efficiency,
}
use nexus_trading.Clearing.Totals.{net_positions_lem}
use nexus_trading.Clearing.Netting.{efficiency_le, cover_doubles_short, two_trades, trade_of}

abbrev day : Engine
day = record {
  trades =
      record { symbol = 7; side = buy; qty = 1000; price = 180; status = pending }
      ∷ record { symbol = 8; side = sell; qty = 50; price = 20; status = pending }
      ∷ record { symbol = 7; side = sell; qty = 800; price = 181; status = pending }
      ∷ [];
  settled_count = 0;
}

-- Of 1000 bought and 800 sold, 200 are to receive.
net_of_seven :
    find (net_positions day) 7
    ≡ some (record { net_qty = pos 200; cost = 324800; gross_trades = 2; gross_shares = 1800 })
unfolding net_positions ◌+ℤ◌
net_of_seven = refl

net_positions_lem_example :
    find (net_positions day) 8
    ≡ some (record { net_qty = negsuc 49; cost = 1000; gross_trades = 1; gross_shares = 50 })
net_positions_lem_example = net_positions_lem day 8

efficiency_le_case : (netting_efficiency day).0 ≤ (netting_efficiency day).1
efficiency_le_case = efficiency_le day

two_hundred_fifty : netting_efficiency day ≡ (250, 1850)
unfolding netting_efficiency net_positions ◌+ℤ◌
two_hundred_fifty = refl

cover_doubles_short_case :
    let e =
      (submit_trade
        (trade_of 7 buy_to_cover 100 50)
        (submit_trade (trade_of 7 sell_short 100 60) init).1).1 in
    find (net_positions e) 7 ≡ some (two_trades (negsuc 199) 11000 200)
cover_doubles_short_case = cover_doubles_short 7 100 60 50
