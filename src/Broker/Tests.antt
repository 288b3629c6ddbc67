-- ===== src/Broker/Tests.antt =====
-- Runs of the credit lines, and the theorems at concrete routers.
use nexus_trading.Base.{
  ◌+◌, ◌≤◌, ◌≡◌, refl, true, false, some, List, [], ◌∷◌, arith, pos, negsuc, ◌+ℤ◌, ◌⊎◌, inl, inr,
}
use nexus_trading.Broker.Credit.{
  goldman_sachs, jp_morgan, alpaca, CreditLine, init, consume, release, is_hard_limited,
}
use nexus_trading.Broker.Router.{Router, line_of, select_broker, consume_credit, release_credit}
use nexus_trading.Broker.Limits.{WithinLimit}
use nexus_trading.Broker.Accounts.{
  Call, consumes, releases, run, accepted, released, run_accounts, step,
}
use nexus_trading.Broker.Selection.{Chooses, select_broker_lem, selected_then_refused}
use nexus_trading.Broker.Venues.{
  OrderVenue, nasdaq, iex, nyse, bats, dark_pool, direct_dma, VenueCost, venue_costs, normal,
  urgent, stealth, route_order, choose, cost_of, total_taker_cost_bps, total_maker_cost_bps,
  excludes, keep_allowed,
}
use nexus_trading.Broker.Routing.{route_order-allowed}
use nexus_trading.Broker.Costs.{Among, Unlisted, price_of, Cheapest, normal_order-Cheapest}

abbrev goldman : CreditLine
goldman = record { limit_usd = 1000; used_usd = 900; warning_threshold = 80; hard_limit = 95 }

abbrev two_brokers : Router
two_brokers = record {
  credit_lines = (goldman_sachs, goldman) ∷ (alpaca, init 5000) ∷ [];
  preferred = goldman_sachs;
}

abbrev day : List Call
day =
    consumes goldman_sachs 40
    ∷ consumes goldman_sachs 40
    ∷ releases goldman_sachs 500
    ∷ consumes alpaca 9
    ∷ []

one_accepted : accepted goldman_sachs day two_brokers ≡ 40
unfolding step consume_credit release_credit consume release is_hard_limited init
one_accepted = refl

run_accounts_example :
    (after : CreditLine) × (line_of (run day two_brokers).credit_lines goldman_sachs ≡ some after)
    × (after.limit_usd ≡ 1000)
    × (after.hard_limit ≡ 95)
    × WithinLimit after
    × (after.used_usd ≤ 900 + accepted goldman_sachs day two_brokers)
    × (900 + accepted goldman_sachs day two_brokers ≤ after.used_usd + released goldman_sachs day)
run_accounts_example = run_accounts day goldman_sachs goldman two_brokers refl (omega arith)

select_broker_lem_example :
    Chooses 200 two_brokers.credit_lines jp_morgan goldman_sachs
      (select_broker 200 (some jp_morgan) two_brokers)
select_broker_lem_example = select_broker_lem 200 (some jp_morgan) two_brokers (refl, (refl, _))

-- Goldman is chosen for 100 and refuses it; Alpaca could take it.
selected_then_refused_case :
    (select_broker 100 (some goldman_sachs) two_brokers ≡ some goldman_sachs)
    × ((consume_credit goldman_sachs 100 two_brokers).0 ≡ false)
selected_then_refused_case =
    selected_then_refused 100 goldman_sachs goldman two_brokers refl (omega arith) (omega arith)
      (omega arith)

-- A bought block with IEX excluded: the dark pool is the cheapest for a taker.
without_iex : (route_order true normal 100 (iex ∷ [])).venue ≡ dark_pool
unfolding route_order choose cost_of total_taker_cost_bps total_maker_cost_bps ◌+ℤ◌ venue_costs
without_iex = refl

passive_order : (route_order false normal 100 []).venue ≡ bats
unfolding route_order choose cost_of total_taker_cost_bps total_maker_cost_bps ◌+ℤ◌ venue_costs
passive_order = refl

all_venues : List OrderVenue
all_venues = iex ∷ nasdaq ∷ nyse ∷ bats ∷ dark_pool ∷ direct_dma ∷ []

-- With every venue of the table excluded, the order goes to one of them.
excluded_all_the_same : excludes all_venues (route_order true urgent 100 all_venues).venue ≡ true
unfolding route_order choose venue_costs all_venues
excluded_all_the_same = refl

route_order-allowed_case :
    let d = route_order true stealth 6000 (iex ∷ dark_pool ∷ []) in
    (excludes (iex ∷ dark_pool ∷ []) d.venue ≡ false)
    ⊎ ((keep_allowed (iex ∷ dark_pool ∷ []) venue_costs ≡ []) × (d.venue ≡ nasdaq))
route_order-allowed_case = route_order-allowed true stealth 6000 (iex ∷ dark_pool ∷ [])

abbrev five_excluded : List OrderVenue
five_excluded = iex ∷ nasdaq ∷ nyse ∷ bats ∷ dark_pool ∷ []

abbrev the_last : VenueCost
the_last = record {
  venue = direct_dma;
  maker_rebate_bps = negsuc 249;
  taker_fee_bps = pos 250;
  exchange_fee_bps = pos 7;
  latency_us = 5;
}

normal_order-Cheapest_example :
    let d = route_order true normal 100 five_excluded in
    (best : VenueCost) × Among best venue_costs
    × Unlisted best.venue five_excluded
    × (d.venue ≡ best.venue)
    × (d.estimated_cost_bps ≡ price_of true best)
    × (d.is_maker ≡ false)
    × Cheapest five_excluded true d.estimated_cost_bps venue_costs
unfolding venue_costs
normal_order-Cheapest_example =
    normal_order-Cheapest true 100 five_excluded the_last (inr (inr (inr (inr (inr (inl refl))))))
      (λ e. cc, (λ e. cc, (λ e. cc, (λ e. cc, (λ e. cc, _)))))
