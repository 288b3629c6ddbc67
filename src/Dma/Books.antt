-- ===== src/Dma/Books.antt =====
-- The books of the path, in the order of the additions.
use nexus_trading.Base.{
  Floats, ℕ, zero, suc, ◌+◌, ◌≡◌, refl, ap, ◌∙◌, sym, inl, inr, Option, none, some, List, [], ◌∷◌,
  ◌++◌, length, length-append, get_elem?, if◌then◌else◌, Bool-cases, arith,
}
use mathlib.Core.List.{append-nil, append_assoc}
use nexus_trading.Broker.Venues.{
  OrderVenue, nyse, nasdaq, bats, iex, dark_pool, fx_ecn, cme, cboe, direct_dma,
}
use nexus_trading.Dma.Path.{
  Rates, ExchangeMember, MakerRebateTracker, record_maker_fill, daily_reset, Order, Sleeper, Ack,
  new_path, fall_asleep, submit_order, rebate_of, acknowledge, rebate_per_share,
}
use nexus_trading.Dma.Runs.{Step, submits, wakes, resets, World, start, without, wake, step, run}

module _ {F : Floats} where
  abbrev pub day_acks : List (List (Ack F) × F.Float) → List (Ack F)
  day_acks [] = []
  day_acks ((acks, day) ∷ rest) = acks ++ day_acks rest

module _ {F : Floats} (R : Rates F) where
  -- The rebate for a share: the venues of the table have a rate each, the others none.
  abbrev pub rate_at : OrderVenue → F.Float
  rate_at nyse = R.nyse_rate
  rate_at nasdaq = R.nasdaq_rate
  rate_at bats = R.bats_rate
  rate_at iex = F.float_of 0
  rate_at dark_pool = F.float_of 0
  rate_at fx_ecn = F.float_of 0
  rate_at cme = F.float_of 0
  rate_at cboe = F.float_of 0
  rate_at direct_dma = R.direct_dma_rate

  -- A float to which the rebates of the maker orders among some answers were added, one by one:
  -- the shares of each at the rate of its venue.
  abbrev pub booked : F.Float → List (Ack F) → F.Float
  booked x [] = x
  booked x (a ∷ rest) =
      booked
        (if a.order.is_maker
          then F.add x (F.mul (F.float_of a.order.qty) (rate_at a.order.venue))
          else x)
        rest

  -- The days that were reset returned what was booked on them, from zero.
  abbrev pub Closed : List (List (Ack F) × F.Float) → Type 0
  Closed [] = Unit
  Closed ((acks, day) ∷ rest) = (day ≡ booked (F.float_of 0) acks) × Closed rest

  -- No order is lost or counted twice, and every rebate is booked once, in the order of the answers.
  pub record Balanced (w : World F) : Type 0 where
    pub orders : w.path.submitted ≡ w.path.acked + length w.path.sleepers
    pub answers : w.path.acked ≡ length (day_acks w.past) + length w.today
    pub total : w.path.rebates.total_rebate ≡ booked (F.float_of 0) (day_acks w.past ++ w.today)
    pub daily : w.path.rebates.daily_rebate ≡ booked (F.float_of 0) w.today
    pub closed : Closed w.past

  rebate_per_share-rate_at : (v : OrderVenue) → rebate_per_share R v ≡ rate_at v
  rebate_per_share-rate_at v = ground arith

  booked-append :
      (xs ys : List (Ack F)) (x : F.Float) → booked x (xs ++ ys) ≡ booked (booked x xs) ys
  booked-append [] ys x = refl
  booked-append (a ∷ xs) ys x = booked-append xs ys _

  -- One more answer, with its rebate on a sum.
  abbrev booked_one : F.Float → Order F → F.Float
  booked_one x o = if o.is_maker then F.add x (F.mul (F.float_of o.qty) (rate_at o.venue)) else x

  rebate_of-booked :
      (o : Order F) (t : MakerRebateTracker F)
      → ((rebate_of R o t).1.total_rebate ≡ booked_one t.total_rebate o)
        × ((rebate_of R o t).1.daily_rebate ≡ booked_one t.daily_rebate o)
  unfolding record_maker_fill
  rebate_of-booked o t =
      let rate = rebate_per_share-rate_at o.venue in
      elim (Bool-cases o.is_maker) [
        | inl maker ↦ rw (maker, rate) (refl, refl)
        | inr taker ↦ rw taker (refl, refl)
      ]

  length-without :
      (i : ℕ) (ss : List (Sleeper F)) (s : Sleeper F)
      → get_elem? ss i ≡ some s
      → suc (length (without i ss)) ≡ length ss
  length-without i [] s e = absurd (ground (arith, e))
  length-without zero (x ∷ xs) s e = refl
  length-without (suc i) (x ∷ xs) s e = ap suc (length-without i xs s e)

  wake-Balanced :
      (i : ℕ) (found : Option (Sleeper F)) (w : World F)
      → get_elem? w.path.sleepers i ≡ found
      → Balanced w
      → Balanced (wake R i found w)
  unfolding acknowledge
  wake-Balanced i none w e b = b
  wake-Balanced i (some s) w e b =
      let r = rebate_of-booked s.order w.path.rebates in
      let size = length-without i w.path.sleepers s e in
      let ack = (acknowledge R s w.path).0 in
      let more : length (w.today ++ ack ∷ []) ≡ length w.today + 1 =
        length-append w.today (ack ∷ []) in
      let one : F.Float → F.Float = λ x. booked_one x s.order in
      record {
        orders = b.orders ∙ omega (arith, size);
        answers = omega (arith, b.answers, more);
        total =
            r.0
            ∙ ap one b.total
            ∙ sym (booked-append (day_acks w.past ++ w.today) (ack ∷ []) (F.float_of 0))
            ∙ ap (booked (F.float_of 0)) (append_assoc (day_acks w.past) w.today (ack ∷ []));
        daily = r.1 ∙ ap one b.daily ∙ sym (booked-append w.today (ack ∷ []) (F.float_of 0));
        closed = b.closed;
      }

  submit-Balanced :
      (found : Option ExchangeMember) (o : Order F) (w : World F)
      → Balanced w
      → Balanced (record w { path = (fall_asleep found o w.path).1 })
  submit-Balanced none o w b = record {
    orders = b.orders;
    answers = b.answers;
    total = b.total;
    daily = b.daily;
    closed = b.closed;
  }
  submit-Balanced (some m) o w b =
      let size : (s : Sleeper F) → length (w.path.sleepers ++ s ∷ []) ≡ length w.path.sleepers + 1 =
        λ s. length-append w.path.sleepers (s ∷ []) in
      record {
        orders = omega (arith, b.orders, size _);
        answers = b.answers;
        total = b.total;
        daily = b.daily;
        closed = b.closed;
      }

  day_acks-append :
      (past : List (List (Ack F) × F.Float)) (acks : List (Ack F)) (day : F.Float)
      → day_acks (past ++ (acks, day) ∷ []) ≡ day_acks past ++ acks
  day_acks-append [] acks day = append-nil acks
  day_acks-append ((xs, d) ∷ rest) acks day =
      ap (λ l. xs ++ l) (day_acks-append rest acks day) ∙ sym (append_assoc xs (day_acks rest) acks)

  Closed-append :
      (past : List (List (Ack F) × F.Float)) (acks : List (Ack F)) (day : F.Float)
      → Closed past
      → day ≡ booked (F.float_of 0) acks
      → Closed (past ++ (acks, day) ∷ [])
  Closed-append [] acks day h e = (e, _)
  Closed-append ((xs, d) ∷ rest) acks day (h, hs) e = (h, Closed-append rest acks day hs e)

  reset-Balanced : (w : World F) → Balanced w → Balanced (step R resets w)
  unfolding step daily_reset
  reset-Balanced w b =
      let moved = day_acks-append w.past w.today w.path.rebates.daily_rebate in
      record {
        orders = b.orders;
        answers =
            omega (arith, b.answers, length-append (day_acks w.past) w.today, ap length moved);
        total = b.total ∙ ap (booked (F.float_of 0)) (sym moved ∙ sym (append-nil _));
        daily = refl;
        closed = Closed-append w.past w.today w.path.rebates.daily_rebate b.closed b.daily;
      }

  step-Balanced : (x : Step F) (w : World F) → Balanced w → Balanced (step R x w)
  unfolding step submit_order
  step-Balanced (submits o) w b = submit-Balanced _ o w b
  step-Balanced (wakes i) w b = wake-Balanced i _ w refl b
  step-Balanced resets w b = reset-Balanced w b

  run-Balanced : (xs : List (Step F)) (w : World F) → Balanced w → Balanced (run R xs w)
  unfolding run
  run-Balanced [] w b = b
  run-Balanced (x ∷ xs) w b = run-Balanced xs (step R x w) (step-Balanced x w b)

  -- After any series of orders, wakings and resets from a new path, in any order, for any rates and
  -- any rounding of floats: the orders that were let in are those acknowledged and those asleep;
  -- there is one answer for each acknowledged one; the total rebate is zero with the rebates of all
  -- answers added one by one in their order (a maker order its shares times the rate of its venue,
  -- any other nothing); the rebate of the present day is the same of the answers since the last
  -- reset, and each reset has returned the same of the answers of its day.
  pub start-Balanced :
      (members : List (ℕ × ExchangeMember)) (xs : List (Step F))
      → Balanced (run R xs (start F members))
  unfolding start new_path
  start-Balanced members xs =
      run-Balanced xs (start F members)
        (record { orders = refl; answers = refl; total = refl; daily = refl; closed = _ })
