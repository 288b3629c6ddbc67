-- ===== src/Broker/Venues.antt =====
-- The smart order router, route_order, over its table of venues. Costs are in hundredths of a
-- basis point, latencies in tenths of a microsecond; the table holds decimal numbers of that size.
use nexus_trading.Base.{
  ℕ, ℤ, pos, negsuc, ◌+ℤ◌, ltb_ℤ, Bool, true, false, not, List, [], ◌∷◌, ltb, ◌==◌, if◌then◌else◌,
}

pub data OrderVenue : Type 0 where
  nyse nasdaq bats iex dark_pool fx_ecn cme cboe direct_dma : OrderVenue

abbrev pub number : OrderVenue → ℕ
number nyse = 0
number nasdaq = 1
number bats = 2
number iex = 3
number dark_pool = 4
number fx_ecn = 5
number cme = 6
number cboe = 7
number direct_dma = 8

pub record VenueCost : Type 0 where
  pub venue : OrderVenue
  pub maker_rebate_bps : ℤ
  pub taker_fee_bps : ℤ
  pub exchange_fee_bps : ℤ
  pub latency_us : ℕ

unfoldable pub total_taker_cost_bps : VenueCost → ℤ
total_taker_cost_bps c = c.taker_fee_bps +ℤ c.exchange_fee_bps

unfoldable pub total_maker_cost_bps : VenueCost → ℤ
total_maker_cost_bps c = c.maker_rebate_bps +ℤ c.exchange_fee_bps

abbrev venue_cost : OrderVenue → ℤ → ℕ → ℕ → ℕ → VenueCost
venue_cost v rebate fee exchange latency = record {
  venue = v;
  maker_rebate_bps = rebate;
  taker_fee_bps = pos fee;
  exchange_fee_bps = pos exchange;
  latency_us = latency;
}

-- VENUE_COSTS, in the order of the dict.
unfoldable pub venue_costs : List VenueCost
venue_costs =
    venue_cost iex (pos 0) 90 0 350
    ∷ venue_cost nasdaq (negsuc 199) 300 10 20
    ∷ venue_cost nyse (negsuc 149) 280 8 30
    ∷ venue_cost bats (negsuc 319) 270 5 15
    ∷ venue_cost dark_pool (pos 0) 100 0 500
    ∷ venue_cost direct_dma (negsuc 249) 250 7 5
    ∷ []

pub data Urgency : Type 0 where
  normal urgent stealth : Urgency

pub data Rationale : Type 0 where
  fallback lowest_latency dark_pool_block lowest_cost : Rationale

pub record RoutingDecision : Type 0 where
  pub venue : OrderVenue
  pub is_maker : Bool
  pub estimated_cost_bps : ℤ
  pub rationale : Rationale

-- `v in exclude`
abbrev pub excludes : List OrderVenue → OrderVenue → Bool
excludes [] v = false
excludes (e ∷ rest) v = if number e == number v then true else excludes rest v

abbrev pub keep_allowed : List OrderVenue → List VenueCost → List VenueCost
keep_allowed exclude [] = []
keep_allowed exclude (c ∷ cs) =
    if excludes exclude c.venue then keep_allowed exclude cs else c ∷ keep_allowed exclude cs

-- Python's `min` with a key: the first of the least.
abbrev pub min_by : (VenueCost → ℤ) → VenueCost → List VenueCost → VenueCost
min_by key best [] = best
min_by key best (c ∷ cs) = min_by key (if ltb_ℤ (key c) (key best) then c else best) cs

unfoldable pub cost_of : Bool → VenueCost → ℤ
cost_of is_aggressive c = if is_aggressive then total_taker_cost_bps c else total_maker_cost_bps c

unfoldable pub latency_of : VenueCost → ℤ
latency_of c = pos c.latency_us

-- `available.get(OrderVenue.DARK_POOL)`
abbrev pub is_dark : VenueCost → Bool
is_dark c = number c.venue == number dark_pool

abbrev pub decide_for : Bool → Rationale → VenueCost → RoutingDecision
decide_for is_aggressive why c = record {
  venue = c.venue;
  is_maker = not is_aggressive;
  estimated_cost_bps = cost_of is_aggressive c;
  rationale = why;
}

abbrev pub cheapest : Bool → VenueCost → List VenueCost → RoutingDecision
cheapest is_aggressive c cs =
    decide_for is_aggressive lowest_cost (min_by (cost_of is_aggressive) c cs)

-- The first dark pool of the list, or else the cheapest venue.
abbrev pub dark_or : List VenueCost → RoutingDecision → RoutingDecision
dark_or [] other = other
dark_or (c ∷ cs) other =
    if is_dark c
    then record {
      venue = dark_pool;
      is_maker = true;
      estimated_cost_bps = total_maker_cost_bps c;
      rationale = dark_pool_block;
    }
    else dark_or cs other

unfoldable pub choose : Bool → Urgency → ℕ → List VenueCost → RoutingDecision
choose is_aggressive mode qty [] = record {
  venue = nasdaq;
  is_maker = not is_aggressive;
  estimated_cost_bps = pos 300;
  rationale = fallback;
}
choose is_aggressive normal qty (c ∷ cs) = cheapest is_aggressive c cs
choose is_aggressive urgent qty (c ∷ cs) =
    decide_for is_aggressive lowest_latency (min_by latency_of c cs)
choose is_aggressive stealth qty (c ∷ cs) =
    if ltb 5000 qty
    then dark_or (c ∷ cs) (cheapest is_aggressive c cs)
    else cheapest is_aggressive c cs

unfoldable pub route_order : Bool → Urgency → ℕ → List OrderVenue → RoutingDecision
route_order is_aggressive mode qty exclude =
    choose is_aggressive mode qty (keep_allowed exclude venue_costs)
