-- ===== src/DarkPool/Crossing.antt =====
-- When an order is crossed, in plain conditions, and the price of one that is not.
use native.Mathlib.Decide.{dec_lt}
use nexus_trading.Base.{
  Floats, ℕ, ◌≡◌, ◌≢◌, ◌≤◌, ◌<◌, refl, inl, inr, ◌⊎◌, ◌&&◌, true, false, not, Option, none, some,
  List, ltb, find, ltb→lt, Bool, if◌then◌else◌, Bool-cases, arith,
}
use nexus_trading.DarkPool.Ats.{
  OrderFlow, arbitrage, Side, buy, is_arbitrage, is_buy, IncomingOrder, InventoryPosition,
  Parameters, can_cross, can_internalize,
}

is_arbitrage-eq : (f : OrderFlow) → is_arbitrage f ≡ true → f ≡ arbitrage
is_arbitrage-eq f h = ground arith

is_buy-eq : (s : Side) → is_buy s ≡ true → s ≡ buy
is_buy-eq s h = ground arith

flow_open :
    (f : OrderFlow) (arb : Bool)
    → is_arbitrage f && not arb ≡ false
    → (f ≢ arbitrage) ⊎ (arb ≡ true)
flow_open f true h = inr refl
flow_open f false h = inl (λ e. ground (arith, h, e))

not_buy : (s : Side) → is_buy s ≡ false → s ≢ buy
not_buy s h e = ground (arith, h, e)

pub lit_price {ℓ} :
    {A : Type ℓ} (s : Side) (bid ask : A)
    → let price = if is_buy s then ask else bid in
      ((s ≡ buy) × (price ≡ ask)) ⊎ ((s ≢ buy) × (price ≡ bid))
lit_price s bid ask = elim (Bool-cases (is_buy s)) [
  | inl b ↦ inl (is_buy-eq s b, rw b refl)
  | inr b ↦ inr (not_buy s b, rw b refl)
]

module _ (F : Floats) where
  -- The middle of a market, and its spread in basis points: 0 where the middle is not positive.
  pub record Measured (bid ask mid spread : F.Float) : Type 0 where
    pub is_mid : F.div (F.add bid ask) (F.float_of 2) ≡ some mid
    pub is_spread :
        ((F.float_leb mid (F.float_of 0) ≡ true) × (spread ≡ F.float_of 0))
        ⊎ ((ratio : F.Float) × (F.float_leb mid (F.float_of 0) ≡ false)
            × (F.div (F.sub ask bid) mid ≡ some ratio)
            × (spread ≡ F.mul ratio (F.float_of 10000)))

module _ {F : Floats} where
  -- The conditions for a cross of an order, in an inventory, at a spread.
  pub record Crossable (c : Parameters F) (o : IncomingOrder F) (spread : F.Float)
      (inventory : List (ℕ × InventoryPosition F)) : Type 0 where
    pub position : InventoryPosition F
    pub held : find inventory o.symbol ≡ some position
    pub enough : o.qty ≤ position.long_qty
    pub not_empty : (o.side ≢ buy) ⊎ (0 < position.long_qty)
    pub flow : (o.flow_type ≢ arbitrage) ⊎ (c.internalize_arb ≡ true)
    pub size : o.qty ≤ c.max_qty
    pub wide : F.float_ltb spread c.min_spread_bps ≡ false

  -- A condition that fails.
  pub data Refused (c : Parameters F) (o : IncomingOrder F) (spread : F.Float)
      (inventory : List (ℕ × InventoryPosition F)) : Type 0 where
    by_flow : o.flow_type ≡ arbitrage → c.internalize_arb ≡ false → Refused c o spread inventory
    by_size : c.max_qty < o.qty → Refused c o spread inventory
    by_spread : F.float_ltb spread c.min_spread_bps ≡ true → Refused c o spread inventory
    not_held : find inventory o.symbol ≡ none → Refused c o spread inventory
    too_few :
        (position : InventoryPosition F)
        → find inventory o.symbol ≡ some position
        → position.long_qty < o.qty
        → Refused c o spread inventory
    none_to_sell :
        (position : InventoryPosition F)
        → find inventory o.symbol ≡ some position
        → o.side ≡ buy
        → position.long_qty ≡ 0
        → Refused c o spread inventory

  can_cross-Crossable :
      (c : Parameters F) (o : IncomingOrder F) (spread : F.Float)
      (inventory : List (ℕ × InventoryPosition F)) (found : Option (InventoryPosition F))
      → find inventory o.symbol ≡ found
      → can_cross F o found ≡ true
      → (o.flow_type ≢ arbitrage) ⊎ (c.internalize_arb ≡ true)
      → ltb c.max_qty o.qty ≡ false
      → F.float_ltb spread c.min_spread_bps ≡ false
      → Crossable c o spread inventory
  can_cross-Crossable c o spread inventory none e t f s w = absurd (ground (arith, t))
  can_cross-Crossable c o spread inventory (some inv) e t f s w = record {
    position = inv;
    held = e;
    enough = ground (arith, t);
    not_empty = ground (arith, t);
    flow = f;
    size = ground (arith, s);
    wide = w;
  }

  can_cross-Refused :
      (c : Parameters F) (o : IncomingOrder F) (spread : F.Float)
      (inventory : List (ℕ × InventoryPosition F)) (found : Option (InventoryPosition F))
      → find inventory o.symbol ≡ found
      → can_cross F o found ≡ false
      → Refused c o spread inventory
  can_cross-Refused c o spread inventory none e t = not_held e
  can_cross-Refused c o spread inventory (some inv) e t = elim (dec_lt inv.long_qty o.qty) [
    | yes few ↦ too_few inv e few
    | no enough ↦ none_to_sell inv e (is_buy-eq o.side (ground (arith, t))) (ground (arith, t))
  ]

  -- Every order is one that can be crossed, and then the code's test says so, or one that cannot.
  pub can_internalize-cases :
      (c : Parameters F) (o : IncomingOrder F) (spread : F.Float)
      (inventory : List (ℕ × InventoryPosition F))
      → ((can_internalize F c o spread inventory ≡ true) × Crossable c o spread inventory)
        ⊎ ((can_internalize F c o spread inventory ≡ false) × Refused c o spread inventory)
  unfolding can_internalize
  can_internalize-cases c o spread inventory =
      elim (Bool-cases (is_arbitrage o.flow_type && not c.internalize_arb)) [
        | inl barred ↦ inr (
          rw barred refl,
          by_flow (is_arbitrage-eq o.flow_type (ground (arith, barred))) (ground (arith, barred)),
        )
        | inr open_flow ↦ elim (Bool-cases (ltb c.max_qty o.qty)) [
          | inl large ↦ inr (rw (open_flow, large) refl, by_size (ltb→lt _ _ large))
          | inr small ↦ elim (Bool-cases (F.float_ltb spread c.min_spread_bps)) [
            | inl narrow ↦ inr (rw (open_flow, small, narrow) refl, by_spread narrow)
            | inr wide ↦
                let found = find inventory o.symbol in
                elim (Bool-cases (can_cross F o found)) [
                  | inl t ↦ inl (
                    rw (open_flow, small, wide) t,
                    can_cross-Crossable c o spread inventory found refl t
                        (flow_open o.flow_type c.internalize_arb open_flow) small wide,
                  )
                  | inr t ↦ inr (
                    rw (open_flow, small, wide) t,
                    can_cross-Refused c o spread inventory found refl t,
                  )
                ]
          ]
        ]
      ]
