-- ===== src/Dma/Path.antt =====
-- ExchangeMember, MakerRebateTracker and DMAOrderPath. Rebates are floats; a number of shares is not
-- negative.
use nexus_trading.Base.{
  Floats, ℕ, suc, ◌+◌, Bool, true, false, Option, none, some, List, [], ◌∷◌, ◌++◌, find, store,
  if◌then◌else◌, ℤ, sub_ℕ,
}
use nexus_trading.Broker.Venues.{OrderVenue, nyse, nasdaq, bats, direct_dma, number}
use nexus_trading.Clearing.Engine.{OrderSide}

pub record ExchangeMember : Type 0 where
  pub member_id : ℕ
  pub cross_connect_latency_ns : ℕ
  pub is_active : Bool

unfoldable pub total_path_latency_ns : ExchangeMember → ℕ
total_path_latency_ns m = 80 + m.cross_connect_latency_ns + 60

module _ (F : Floats) where
  -- The numbers of _REBATES_PER_SHARE, and `round(x, 6)`.
  pub record Rates : Type 0 where
    pub nasdaq_rate : F.Float
    pub nyse_rate : F.Float
    pub bats_rate : F.Float
    pub direct_dma_rate : F.Float
    pub round_6 : F.Float → F.Float

  pub record MakerRebateTracker : Type 0 where
    pub daily_shares : List (ℕ × ℕ)
    pub daily_rebate : F.Float
    pub total_rebate : F.Float

  pub record Order : Type 0 where
    pub venue : OrderVenue
    pub symbol : ℕ
    pub side : OrderSide
    pub qty : ℕ
    pub price : F.Float
    pub is_maker : Bool

  -- An order whose `submit_order` sleeps, with its latency.
  pub record Sleeper : Type 0 where
    pub order : Order
    pub latency_ns : ℕ

  -- The entries of an ACK that are not the order's; an order id is a venue and a number.
  pub record Ack : Type 0 where
    pub order : Order
    pub order_id : OrderVenue × ℕ
    pub latency_ns : ℕ
    pub rebate : F.Float

  pub record DmaOrderPath : Type 0 where
    pub members : List (ℕ × ExchangeMember)
    pub rebates : MakerRebateTracker
    pub submitted : ℕ
    pub acked : ℕ
    -- the calls of `submit_order` that sleep
    pub sleepers : List Sleeper

  abbrev pub no_rebates : MakerRebateTracker
  no_rebates = record {
    daily_shares = [];
    daily_rebate = F.float_of 0;
    total_rebate = F.float_of 0;
  }

  unfoldable pub new_path : List (ℕ × ExchangeMember) → DmaOrderPath
  new_path members = record {
    members = members;
    rebates = no_rebates;
    submitted = 0;
    acked = 0;
    sleepers = [];
  }

-- The member that an order finds, if it is active.
abbrev pub active_member : Option ExchangeMember → Option ExchangeMember
active_member none = none
active_member (some m) = if m.is_active then some m else none

abbrev shares_of : Option ℕ → ℕ
shares_of none = 0
shares_of (some n) = n

module _ {F : Floats} where
  abbrev pub fall_asleep : Option ExchangeMember → Order F → DmaOrderPath F → Bool × DmaOrderPath F
  fall_asleep none o p = (false, p)
  fall_asleep (some m) o p = (
    true,
    record p {
      submitted = suc p.submitted;
      sleepers = p.sleepers ++ record { order = o; latency_ns = total_path_latency_ns m } ∷ [];
    },
  )

  -- `submit_order` up to its sleep; false is the answer "no DMA membership".
  unfoldable pub submit_order : Order F → DmaOrderPath F → Bool × DmaOrderPath F
  submit_order o p = fall_asleep (active_member (find p.members (number o.venue))) o p

  -- The rebate of the day and the tracker.
  unfoldable pub daily_reset : MakerRebateTracker F → F.Float × MakerRebateTracker F
  daily_reset t = (t.daily_rebate, record t { daily_shares = []; daily_rebate = F.float_of 0 })

  -- `latency_advantage_ns`; the path of a broker takes two milliseconds.
  unfoldable pub latency_advantage_ns : OrderVenue → DmaOrderPath F → ℤ
  latency_advantage_ns venue p = elim (find p.members (number venue)) [
    | none ↦ sub_ℕ 0 0
    | some m ↦ sub_ℕ 2000000 (total_path_latency_ns m)
  ]

module _ {F : Floats} (R : Rates F) where
  -- `_REBATES_PER_SHARE.get(venue, 0.0)`
  abbrev pub rebate_per_share : OrderVenue → F.Float
  rebate_per_share nasdaq = R.nasdaq_rate
  rebate_per_share nyse = R.nyse_rate
  rebate_per_share bats = R.bats_rate
  rebate_per_share direct_dma = R.direct_dma_rate
  rebate_per_share _ = F.float_of 0

  -- The rebate and the tracker.
  unfoldable pub record_maker_fill :
      OrderVenue → ℕ → MakerRebateTracker F → F.Float × MakerRebateTracker F
  record_maker_fill venue shares t =
      let rebate = F.mul (F.float_of shares) (rebate_per_share venue) in
      (
        rebate,
        record {
          daily_shares =
              store t.daily_shares (number venue)
                (shares_of (find t.daily_shares (number venue)) + shares);
          daily_rebate = F.add t.daily_rebate rebate;
          total_rebate = F.add t.total_rebate rebate;
        },
      )

  abbrev pub rebate_of : Order F → MakerRebateTracker F → F.Float × MakerRebateTracker F
  rebate_of o t = if o.is_maker then record_maker_fill o.venue o.qty t else (F.float_of 0, t)

  -- `submit_order` after its sleep: the order id is made of the counter as it is then.
  unfoldable pub acknowledge : Sleeper F → DmaOrderPath F → Ack F × DmaOrderPath F
  acknowledge s p =
      let (rebate, tracker) = rebate_of s.order p.rebates in
      (
        record {
          order = s.order;
          order_id = (s.order.venue, p.submitted);
          latency_ns = s.latency_ns;
          rebate = R.round_6 rebate;
        },
        record p { acked = suc p.acked; rebates = tracker },
      )
