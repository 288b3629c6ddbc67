-- ===== src/Fpga/Units.antt =====
-- FPGASignalUnit.process, FPGARiskUnit.approve, FPGAOrderUnit.encode_order and FPGAPipeline.process.
use nexus_trading.Base.{
  Floats, ℕ, suc, ◌+◌, ◌-◌, ◌/◌, ◌&&◌, ◌||◌, Bool, false, not, Option, none, some, List, [], ◌∷◌,
  ltb, min, length, take, drop, push_bounded, if◌then◌else◌, Result, ok, err, ◌>>=◌,
}
use nexus_trading.Fpga.Frame.{
  Direction, up, down, is_signal, decode, signal, risk, encode, transmit, fpga_latency_ns, Error,
  zero_division, not_finite, PipelineStats, FpgaFrame, Parameters, FpgaPipeline,
}

abbrev pub or_raise {ℓ} : {A : Type ℓ} → Error → Option A → Result Error A
or_raise e none = err e
or_raise e (some a) = ok a

module _ (F : Floats) where
  -- `sum(xs)`, from a first summand
  abbrev pub sum_from : F.Float → List F.Float → F.Float
  sum_from total [] = total
  sum_from total (x ∷ xs) = sum_from (F.add total x) xs

  -- `sum(xs) / n`
  abbrev pub mean : List F.Float → ℕ → Result Error F.Float
  mean xs n = or_raise zero_division (F.div (sum_from (F.float_of 0) xs) (F.float_of n))

  abbrev pub bps : F.Float → F.Float
  bps x = F.mul x (F.float_of 10000)

  abbrev pub direction_of : F.Float → Direction
  direction_of momentum = if F.float_ltb (F.float_of 0) momentum then up else down

  -- The last part of `FPGASignalUnit.process`, given the two means.
  unfoldable pub set_signal :
      Parameters F → F.Float → F.Float → FpgaFrame F → Result Error (FpgaFrame F)
  set_signal c recent older f = if F.float_leb older (F.float_of 0) then ok f else do
    slope ← or_raise zero_division (F.div (F.sub recent older) older)
    let momentum = bps slope
    strength ← or_raise not_finite (F.truncate (F.mul (F.float_abs momentum) (F.float_of 10)))
    ok (record f {
      signal_strength = min 255 strength;
      signal_direction =
          if F.float_leb c.signal_threshold (F.float_abs momentum)
          then direction_of momentum
          else f.signal_direction;
    })

  -- The part of `FPGASignalUnit.process` after the append to the price buffer.
  unfoldable pub from_prices :
      Parameters F → List F.Float → FpgaFrame F → Result Error (FpgaFrame F)
  unfolding set_signal
  from_prices c prices f = if ltb (length prices) 3 then ok f else do
    let mid = length prices / 2
    recent ← mean (drop mid prices) (length prices - mid)
    older ← mean (take mid prices) mid
    set_signal c recent older f

  -- `FPGASignalUnit.process`: the frame and the price buffer
  unfoldable pub process_signal :
      Parameters F → List F.Float → FpgaFrame F → Result Error (List F.Float × FpgaFrame F)
  unfolding from_prices
  process_signal c buffer frame =
      let f = record frame { stage = signal } in
      if F.float_leb f.ask (F.float_of 0) || F.float_leb f.bid (F.float_of 0)
      then ok (buffer, f)
      else do
        spread ← or_raise zero_division (F.div (F.sub f.ask f.bid) f.bid)
        let prices = push_bounded c.momentum_window buffer f.last
        let go_on = from_prices c prices f >>= λ g. ok (prices, g)
        if F.float_ltb c.spread_threshold_bps (bps spread) then ok (buffer, f) else go_on

  -- Whether the price is too far from the middle.
  abbrev pub off_band : Parameters F → F.Float → F.Float → Result Error Bool
  off_band c mid price =
      if F.float_ltb (F.float_of 0) mid && F.float_ltb (F.float_of 0) price
      then (do
        deviation ← or_raise zero_division (F.div (F.float_abs (F.sub price mid)) mid)
        ok (F.float_ltb c.price_band_bps (bps deviation)))
      else ok false

  -- The three checks of `FPGARiskUnit.approve`, given the middle.
  abbrev pub check_limits : Parameters F → F.Float → FpgaFrame F → Result Error (FpgaFrame F)
  check_limits c mid f =
      let refused = record f { risk_approved = false } in
      if ltb c.max_order_size f.order_qty
      then ok refused
      else if F.float_ltb c.max_notional_usd (F.mul (F.float_of f.order_qty) mid)
      then ok refused
      else do off ← off_band c mid f.order_price; ok (record f { risk_approved = not off })

  -- `FPGARiskUnit.approve`
  unfoldable pub approve : Parameters F → FpgaFrame F → Result Error (FpgaFrame F)
  approve c frame =
      let f = record frame { stage = risk } in
      if not (is_signal f.signal_direction) then ok f else do
        mid ← or_raise zero_division (F.div (F.add f.bid f.ask) (F.float_of 2))
        check_limits c mid f

  abbrev pub crossing_price : FpgaFrame F → F.Float
  crossing_price f = elim f.signal_direction [ up ↦ f.ask | _ ↦ f.bid ]

  -- `FPGAOrderUnit.encode_order`: the frame and the order counter
  unfoldable pub encode_order : Parameters F → ℕ → FpgaFrame F → ℕ × FpgaFrame F
  encode_order c order_seq frame =
      let f = record frame { stage = encode } in
      if not (is_signal f.signal_direction) || not f.risk_approved
      then (order_seq, f)
      else (suc order_seq, record f { order_price = crossing_price f; order_qty = c.default_qty })

  -- The provisional order that `FPGAPipeline.process` sets before the risk check.
  abbrev pub provisional : Parameters F → FpgaFrame F → FpgaFrame F
  provisional c f =
      if is_signal f.signal_direction
      then record f { order_qty = c.default_qty; order_price = crossing_price f }
      else f

  abbrev pub count : FpgaFrame F → PipelineStats → PipelineStats
  count f s = record {
    frames_processed = suc s.frames_processed;
    total_latency_ns = s.total_latency_ns + fpga_latency_ns;
    signals_generated =
        if is_signal f.signal_direction then suc s.signals_generated else s.signals_generated;
    risk_rejections =
        if is_signal f.signal_direction && not f.risk_approved
        then suc s.risk_rejections
        else s.risk_rejections;
  }

  -- The stages of `FPGAPipeline.process` after the risk check.
  unfoldable pub send :
      Parameters F → List F.Float → FpgaPipeline F → FpgaFrame F → FpgaFrame F × FpgaPipeline F
  unfolding encode_order
  send c prices p checked =
      let (order_seq, g) = encode_order c p.order_seq checked in
      let out = record g { stage = transmit } in
      (out, record { price_buffer = prices; order_seq = order_seq; stats = count out p.stats })

  -- The stages after the signal unit.
  unfoldable pub check_and_send :
      Parameters F
      → FpgaPipeline F
      → List F.Float × FpgaFrame F
      → Result Error (FpgaFrame F × FpgaPipeline F)
  unfolding approve send
  check_and_send c p (prices, f) = do
    checked ← approve c (provisional c f)
    ok (send c prices p checked)

  -- `FPGAPipeline.process`
  unfoldable pub process :
      Parameters F → FpgaFrame F → FpgaPipeline F → Result Error (FpgaFrame F × FpgaPipeline F)
  unfolding process_signal check_and_send
  process c frame p = do
    signalled ← process_signal c p.price_buffer (record frame { stage = decode })
    check_and_send c p signalled
