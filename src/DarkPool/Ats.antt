-- ===== src/DarkPool/Ats.antt =====
-- class DarkPoolATS: its data, the tests for a cross, and `route`.
use nexus_trading.Base.{
  Floats, ℕ, suc, ◌+◌, ◌-◌, ◌&&◌, Bool, true, false, not, Option, none, some, List, [], ◌∷◌, ◌++◌,
  String, ltb, find, store, if◌then◌else◌, Result, ok, err, ◌>>=◌,
}

pub data RoutingDecision : Type 0 where
  internalized lit_market rejected : RoutingDecision

pub data OrderFlow : Type 0 where
  retail institutional arbitrage : OrderFlow

abbrev pub is_arbitrage : OrderFlow → Bool
is_arbitrage arbitrage = true
is_arbitrage _ = false

-- The text "buy", or any other.
pub data Side : Type 0 where
  buy : Side
  other_side : String → Side

abbrev pub is_buy : Side → Bool
is_buy buy = true
is_buy (other_side _) = false

pub data Error : Type 0 where
  zero_division : Error

module _ (F : Floats) where
  -- Symbols and ids are only compared; a quantity of an order is not negative.
  pub record IncomingOrder : Type 0 where
    pub order_id : ℕ
    pub symbol : ℕ
    pub side : Side
    pub qty : ℕ
    pub limit_price : F.Float
    pub flow_type : OrderFlow

  pub record InventoryPosition : Type 0 where
    pub long_qty : ℕ
    pub short_qty : ℕ
    pub avg_cost : F.Float

  pub record CrossedTrade : Type 0 where
    pub order_id : ℕ
    pub symbol : ℕ
    pub side : Side
    pub qty : ℕ
    pub cross_price : F.Float
    pub bid : F.Float
    pub ask : F.Float
    pub spread_bps : F.Float
    pub pfof_payment : F.Float
    pub exchange_fee_saved : F.Float
    pub routing_decision : RoutingDecision

  pub record AtsStats : Type 0 where
    pub total_orders : ℕ
    pub internalized_orders : ℕ
    pub lit_routed : ℕ
    pub rejected_orders : ℕ
    pub total_pfof_paid : F.Float
    pub total_fees_saved : F.Float
    pub total_volume_internalized : ℕ
    pub total_volume_lit : ℕ

  -- The constructor's arguments and the two fees a share.
  pub record Parameters : Type 0 where
    pub max_qty : ℕ
    pub min_spread_bps : F.Float
    pub internalize_arb : Bool
    pub pfof_payment_per_share : F.Float
    pub exchange_fee_per_share : F.Float

  pub record DarkPoolAts : Type 0 where
    pub inventory : List (ℕ × InventoryPosition)
    pub trades : List CrossedTrade
    pub stats : AtsStats

module _ (F : Floats) where
  abbrev pub no_stats : AtsStats F
  no_stats = record {
    total_orders = 0;
    internalized_orders = 0;
    lit_routed = 0;
    rejected_orders = 0;
    total_pfof_paid = F.float_of 0;
    total_fees_saved = F.float_of 0;
    total_volume_internalized = 0;
    total_volume_lit = 0;
  }

  unfoldable pub new_ats : DarkPoolAts F
  new_ats = record { inventory = []; trades = []; stats = no_stats }

  unfoldable pub update_inventory : ℕ → ℕ → ℕ → F.Float → DarkPoolAts F → DarkPoolAts F
  update_inventory symbol long_qty short_qty avg_cost a = record a {
    inventory =
        store a.inventory symbol
          (record { long_qty = long_qty; short_qty = short_qty; avg_cost = avg_cost });
  }

  abbrev pub or_raise : Option F.Float → Result Error F.Float
  or_raise none = err zero_division
  or_raise (some q) = ok q

  abbrev pub divide : F.Float → F.Float → Result Error F.Float
  divide x y = or_raise (F.div x y)

  -- `(bid + ask) / 2.0`
  abbrev pub middle : F.Float → F.Float → Result Error F.Float
  middle bid ask = divide (F.add bid ask) (F.float_of 2)

  -- `_spread_bps`, given the middle
  abbrev pub spread_of : F.Float → F.Float → F.Float → Result Error F.Float
  spread_of bid ask mid =
      if F.float_leb mid (F.float_of 0)
      then ok (F.float_of 0)
      else (do ratio ← divide (F.sub ask bid) mid; ok (F.mul ratio (F.float_of 10000)))

  -- The checks of `_can_internalize` on the inventory of the symbol.
  abbrev pub can_cross : IncomingOrder F → Option (InventoryPosition F) → Bool
  can_cross o none = false
  can_cross o (some inv) =
      if is_buy o.side
      then if not (ltb 0 inv.long_qty) then false else not (ltb inv.long_qty o.qty)
      else not (ltb inv.long_qty o.qty)

  -- `_can_internalize`, given the spread
  unfoldable pub can_internalize :
      Parameters F → IncomingOrder F → F.Float → List (ℕ × InventoryPosition F) → Bool
  can_internalize c o spread inventory =
      if is_arbitrage o.flow_type && not c.internalize_arb
      then false
      else if ltb c.max_qty o.qty
      then false
      else if F.float_ltb spread c.min_spread_bps
      then false
      else can_cross o (find inventory o.symbol)

  -- `inv.long_qty -= order.qty`
  abbrev pub deduct_from :
      Option (InventoryPosition F)
      → ℕ
      → ℕ
      → List (ℕ × InventoryPosition F)
      → List (ℕ × InventoryPosition F)
  deduct_from none symbol qty inventory = inventory
  deduct_from (some inv) symbol qty inventory =
      store inventory symbol (record inv { long_qty = inv.long_qty - qty })

  abbrev pub deduct : ℕ → ℕ → List (ℕ × InventoryPosition F) → List (ℕ × InventoryPosition F)
  deduct symbol qty inventory = deduct_from (find inventory symbol) symbol qty inventory

  abbrev pub trade_of :
      IncomingOrder F
      → F.Float
      → F.Float
      → F.Float
      → F.Float
      → F.Float
      → F.Float
      → RoutingDecision
      → CrossedTrade F
  trade_of o bid ask spread price pfof fee decision = record {
    order_id = o.order_id;
    symbol = o.symbol;
    side = o.side;
    qty = o.qty;
    cross_price = price;
    bid = bid;
    ask = ask;
    spread_bps = spread;
    pfof_payment = pfof;
    exchange_fee_saved = fee;
    routing_decision = decision;
  }

  abbrev pub cross :
      Parameters F
      → IncomingOrder F
      → F.Float
      → F.Float
      → F.Float
      → F.Float
      → DarkPoolAts F
      → CrossedTrade F × DarkPoolAts F
  cross c o bid ask mid spread a =
      let pfof = F.mul c.pfof_payment_per_share (F.float_of o.qty) in
      let fee = F.mul c.exchange_fee_per_share (F.float_of o.qty) in
      let trade = trade_of o bid ask spread mid pfof fee internalized in
      (
        trade,
        record {
          inventory = deduct o.symbol o.qty a.inventory;
          trades = a.trades ++ trade ∷ [];
          stats = record a.stats {
            total_orders = suc a.stats.total_orders;
            internalized_orders = suc a.stats.internalized_orders;
            total_pfof_paid = F.add a.stats.total_pfof_paid pfof;
            total_fees_saved = F.add a.stats.total_fees_saved fee;
            total_volume_internalized = a.stats.total_volume_internalized + o.qty;
          };
        },
      )

  abbrev pub route_lit :
      IncomingOrder F → F.Float → F.Float → F.Float → DarkPoolAts F → CrossedTrade F × DarkPoolAts F
  route_lit o bid ask spread a =
      let price = if is_buy o.side then ask else bid in
      let trade = trade_of o bid ask spread price (F.float_of 0) (F.float_of 0) lit_market in
      (
        trade,
        record {
          inventory = a.inventory;
          trades = a.trades ++ trade ∷ [];
          stats = record a.stats {
            total_orders = suc a.stats.total_orders;
            lit_routed = suc a.stats.lit_routed;
            total_volume_lit = a.stats.total_volume_lit + o.qty;
          };
        },
      )

  -- `route`
  unfoldable pub route :
      Parameters F
      → IncomingOrder F
      → F.Float
      → F.Float
      → DarkPoolAts F
      → Result Error (CrossedTrade F × DarkPoolAts F)
  unfolding can_internalize
  route c o bid ask a = do
    mid ← middle bid ask
    spread ← spread_of bid ask mid
    ok (
        if can_internalize c o spread a.inventory
        then cross c o bid ask mid spread a
        else route_lit o bid ask spread a)
