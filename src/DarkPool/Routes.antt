-- ===== src/DarkPool/Routes.antt =====
-- Orders through the engine: what a route does, the statistics, and the inventory.
use nexus_trading.Base.{
  Floats, Division, ℕ, suc, ◌+◌, ◌-◌, ◌≡◌, ◌≢◌, ◌≤◌, refl, ap, subst, inl, inr, ◌⊎◌, ◌==◌, Option,
  none, some, List, [], ◌∷◌, ◌++◌, find, store, find-store, find-store_ne, if◌then◌else◌, ok,
  Bool-cases, ==_iff, arith,
}
use nexus_trading.DarkPool.Ats.{
  internalized, lit_market, buy, IncomingOrder, InventoryPosition, CrossedTrade, AtsStats,
  Parameters, DarkPoolAts, middle, spread_of, deduct, cross, route_lit, route,
}
use nexus_trading.DarkPool.Crossing.{Measured, Crossable, Refused, can_internalize-cases, lit_price}

module _ {F : Floats} where
  -- The statistics of one trade.
  abbrev pub count : CrossedTrade F → AtsStats F → AtsStats F
  count t s = elim t.routing_decision [
    | internalized ↦ record s {
      total_orders = suc s.total_orders;
      internalized_orders = suc s.internalized_orders;
      total_pfof_paid = F.add s.total_pfof_paid t.pfof_payment;
      total_fees_saved = F.add s.total_fees_saved t.exchange_fee_saved;
      total_volume_internalized = s.total_volume_internalized + t.qty;
    }
    | _ ↦ record s {
      total_orders = suc s.total_orders;
      lit_routed = suc s.lit_routed;
      total_volume_lit = s.total_volume_lit + t.qty;
    }
  ]

  -- The shares of a symbol that a trade takes out of the inventory, and those that it holds.
  abbrev pub crossed_qty : ℕ → CrossedTrade F → ℕ
  crossed_qty symbol t = elim t.routing_decision [
    | internalized ↦ if t.symbol == symbol then t.qty else 0
    | _ ↦ 0
  ]

  abbrev long : Option (InventoryPosition F) → ℕ
  long none = 0
  long (some inv) = inv.long_qty

  abbrev pub long_of : ℕ → List (ℕ × InventoryPosition F) → ℕ
  long_of symbol inventory = long (find inventory symbol)

  -- A trade for an order, in a market.
  pub record For (o : IncomingOrder F) (bid ask : F.Float) (t : CrossedTrade F) : Type 0 where
    pub same_id : t.order_id ≡ o.order_id
    pub same_symbol : t.symbol ≡ o.symbol
    pub same_side : t.side ≡ o.side
    pub same_qty : t.qty ≡ o.qty
    pub same_bid : t.bid ≡ bid
    pub same_ask : t.ask ≡ ask

  -- What a route does.
  pub record Routed (c : Parameters F) (o : IncomingOrder F) (bid ask : F.Float) (a : DarkPoolAts F)
      (t : CrossedTrade F) (a' : DarkPoolAts F) : Type 0 where
    pub ordered : For o bid ask t
    pub recorded : a'.trades ≡ a.trades ++ t ∷ []
    pub counted : a'.stats ≡ count t a.stats
    pub shares :
        (symbol : ℕ)
        → long_of symbol a'.inventory + crossed_qty symbol t ≡ long_of symbol a.inventory
    pub mid : F.Float
    pub measured : Measured F bid ask mid t.spread_bps
    pub priced :
        ((t.routing_decision ≡ internalized)
          × Crossable c o t.spread_bps a.inventory
          × (t.cross_price ≡ mid)
          × (t.pfof_payment ≡ F.mul c.pfof_payment_per_share (F.float_of o.qty))
          × (t.exchange_fee_saved ≡ F.mul c.exchange_fee_per_share (F.float_of o.qty)))
        ⊎ ((t.routing_decision ≡ lit_market)
            × Refused c o t.spread_bps a.inventory
            × (((o.side ≡ buy) × (t.cross_price ≡ ask)) ⊎ ((o.side ≢ buy) × (t.cross_price ≡ bid)))
            × (t.pfof_payment ≡ F.float_of 0)
            × (t.exchange_fee_saved ≡ F.float_of 0))

  deducted :
      (o : IncomingOrder F) (inventory : List (ℕ × InventoryPosition F)) (inv : InventoryPosition F)
      → find inventory o.symbol ≡ some inv
      → o.qty ≤ inv.long_qty
      → (symbol : ℕ)
      → long_of symbol (deduct F o.symbol o.qty inventory)
          + (if o.symbol == symbol then o.qty else 0)
        ≡ long_of symbol inventory
  deducted o inventory inv e h symbol =
      let left = record inv { long_qty = inv.long_qty - o.qty } in
      let d = store inventory o.symbol left in
      elim (Bool-cases (o.symbol == symbol)) [
        | inl same ↦
            let k : o.symbol ≡ symbol = (==_iff o.symbol symbol).0 same in
            let now : long_of symbol d ≡ inv.long_qty - o.qty =
              ap long (subst (λ x. find d x ≡ some left) k (find-store inventory o.symbol left)) in
            let before : long_of symbol inventory ≡ inv.long_qty =
              ap long (subst (λ x. find inventory x ≡ some inv) k e) in
            rw (e, same) (omega (arith, now, before, h))
        | inr other ↦
            let apart : o.symbol ≢ symbol = λ q. ground (arith, other, q) in
            let now : long_of symbol d ≡ long_of symbol inventory =
              ap long (find-store_ne inventory o.symbol symbol left apart) in
            rw (e, other) (omega (arith, now))
      ]

  cross-Routed :
      (c : Parameters F) (o : IncomingOrder F) (bid ask mid spread : F.Float) (a : DarkPoolAts F)
      → Measured F bid ask mid spread
      → Crossable c o spread a.inventory
      → let r = cross F c o bid ask mid spread a in Routed c o bid ask a (r.0) (r.1)
  cross-Routed c o bid ask mid spread a m k = record {
    ordered = record {
      same_id = refl;
      same_symbol = refl;
      same_side = refl;
      same_qty = refl;
      same_bid = refl;
      same_ask = refl;
    };
    recorded = refl;
    counted = refl;
    shares = deducted o a.inventory k.position k.held k.enough;
    mid = mid;
    measured = m;
    priced = inl (refl, k, refl, refl, refl);
  }

  lit-Routed :
      (c : Parameters F) (o : IncomingOrder F) (bid ask mid spread : F.Float) (a : DarkPoolAts F)
      → Measured F bid ask mid spread
      → Refused c o spread a.inventory
      → let r = route_lit F o bid ask spread a in Routed c o bid ask a (r.0) (r.1)
  lit-Routed c o bid ask mid spread a m k = record {
    ordered = record {
      same_id = refl;
      same_symbol = refl;
      same_side = refl;
      same_qty = refl;
      same_bid = refl;
      same_ask = refl;
    };
    recorded = refl;
    counted = refl;
    shares = λ symbol. omega arith;
    mid = mid;
    measured = m;
    priced = inr (refl, k, lit_price o.side bid ask, refl, refl);
  }

  spread_returns :
      (bid ask mid : F.Float)
      → Division F
      → F.div (F.add bid ask) (F.float_of 2) ≡ some mid
      → (spread : F.Float) × (spread_of F bid ask mid ≡ ok spread) × Measured F bid ask mid spread
  spread_returns bid ask mid division m = elim (Bool-cases (F.float_leb mid (F.float_of 0))) [
    | inl low ↦ (F.float_of 0, rw low refl, record { is_mid = m; is_spread = inl (low, refl) })
    | inr positive ↦
        let (ratio, r) = division.not_le_zero (F.sub ask bid) mid positive in
        (
          F.mul ratio (F.float_of 10000),
          rw (positive, r) refl,
          record { is_mid = m; is_spread = inr (ratio, positive, r, refl) },
        )
  ]

  -- Whatever the order, the market, the parameters and the inventory, where divisions raise only by
  -- zero, a route returns a trade for the order. It is recorded and counted; what it takes out of
  -- the inventory is what its symbol's long quantity loses. Either it is crossed at the middle, with
  -- the payment and the fee of its shares, from a long quantity that covers it (and is not empty, for
  -- a purchase), within the size, with a spread that is wide enough and no arbitrage (unless that is
  -- let in); or one of these conditions fails, and it goes out at the ask for a purchase, at the bid
  -- for any other side, with no payment and no fee.
  pub route_lem :
      (c : Parameters F) (o : IncomingOrder F) (bid ask : F.Float) (a : DarkPoolAts F)
      → Division F
      → (t : CrossedTrade F) × (a' : DarkPoolAts F) × (route F c o bid ask a ≡ ok (t, a'))
        × Routed c o bid ask a t a'
  unfolding route
  route_lem c o bid ask a division =
      let (mid, m) = division.not_zero (F.add bid ask) 2 (omega arith) in
      let half : middle F bid ask ≡ ok mid = rw m refl in
      let (spread, w, r) = spread_returns bid ask mid division m in
      elim (can_internalize-cases c o spread a.inventory) [
        | inl (t, k) ↦ (_, _, rw (half, w, t) refl, cross-Routed c o bid ask mid spread a r k)
        | inr (t, k) ↦ (_, _, rw (half, w, t) refl, lit-Routed c o bid ask mid spread a r k)
      ]
