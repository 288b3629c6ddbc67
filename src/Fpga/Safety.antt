-- ===== src/Fpga/Safety.antt =====
-- The whole pipeline: what it sends, what it counts, and what it can raise.
use nexus_trading.Base.{
  Floats, Division, ℕ, suc, ◌+◌, not, ◌≡◌, refl, subst, inl, inr, ◌&&◌, true, false, List,
  if◌then◌else◌, Result, ok, err, ◌>>=◌, Outcome, Bool-cases, arith,
}
use nexus_trading.Fpga.Frame.{is_signal, decode, risk, Error, FpgaFrame, Parameters, FpgaPipeline}
use nexus_trading.Fpga.Units.{
  approve, encode_order, crossing_price, provisional, send, check_and_send, process,
}
use nexus_trading.Fpga.Signals.{
  OnlyNotFinite, IsNotFinite, with-Division, SameMarket, Buffered, process_signal-Outcome,
}
use nexus_trading.Fpga.Limits.{
  Crosses, crossing_price-Crosses, Limits, Checked, raises, refused, passed, approve-Checked,
}

module _ {F : Floats} where
  -- What the pipeline has done when it returns a frame.
  pub record Processed (c : Parameters F) (frame : FpgaFrame F) (p : FpgaPipeline F)
      (out : FpgaFrame F) (p' : FpgaPipeline F) : Type 0 where
    pub market : SameMarket frame out
    pub counted : p'.stats ≡ record {
      frames_processed = suc p.stats.frames_processed;
      total_latency_ns = p.stats.total_latency_ns + 80;
      signals_generated =
          if is_signal out.signal_direction
          then suc p.stats.signals_generated
          else p.stats.signals_generated;
      risk_rejections =
          if is_signal out.signal_direction && not out.risk_approved
          then suc p.stats.risk_rejections
          else p.stats.risk_rejections;
    }
    pub buffered : Buffered c p.price_buffer frame.last p'.price_buffer
    pub numbered : p'.order_seq ≡ (
        if is_signal out.signal_direction && out.risk_approved
        then suc p.order_seq
        else p.order_seq)
    pub safe :
        is_signal out.signal_direction ≡ true
        → out.risk_approved ≡ true
        → Limits c frame.bid frame.ask out.order_price out.order_qty
          × (out.order_qty ≡ c.default_qty)
          × Crosses frame.bid frame.ask out.signal_direction out.order_price

  -- A frame that carries a provisional order.
  record Provisional (c : Parameters F) (frame q : FpgaFrame F) : Type 0 where
    market : SameMarket frame q
    signals : is_signal q.signal_direction ≡ true
    quantity : q.order_qty ≡ c.default_qty
    price : q.order_price ≡ crossing_price F q

  provisional-Provisional :
      (c : Parameters F) (frame f : FpgaFrame F)
      → SameMarket frame f
      → is_signal f.signal_direction ≡ true
      → Provisional c frame (provisional F c f)
  provisional-Provisional c frame f m e = rw e (record {
    market = record { same_bid = m.same_bid; same_ask = m.same_ask };
    signals = e;
    quantity = refl;
    price = refl;
  })

  Limits-along :
      (c : Parameters F) {bid bid' ask ask' price price' : F.Float} {qty qty' : ℕ}
      → bid ≡ bid'
      → ask ≡ ask'
      → price ≡ price'
      → qty ≡ qty'
      → Limits c bid ask price qty
      → Limits c bid' ask' price' qty'
  Limits-along c {bid' = b} {ask = a'} {ask' = a} {price = x} {price' = y} {qty = n} p q r s l =
      subst (λ m. Limits c b a y m) s
        (subst (λ z. Limits c b a z n) r
          (subst (λ z. Limits c b z x n) q (subst (λ z. Limits c z a' x n) p l)))

  module _ (c : Parameters F) (frame : FpgaFrame F) (p : FpgaPipeline F)
      (prices : List F.Float) where
    abbrev Good : FpgaFrame F × FpgaPipeline F → Type 0
    Good o = Processed c frame p (o.0) (o.1)

    send_refused :
        (q : FpgaFrame F)
        → Buffered c p.price_buffer frame.last prices
        → Provisional c frame q
        → Good (send F c prices p (record q { stage = risk; risk_approved = false }))
    unfolding send encode_order
    send_refused q b h =
        let e = h.signals in
        rw e (record {
          market = record { same_bid = h.market.same_bid; same_ask = h.market.same_ask };
          counted = rw e refl;
          buffered = b;
          numbered = rw e refl;
          safe = λ _ t. absurd (ground (arith, t));
        })

    send_passed :
        (q : FpgaFrame F)
        → Buffered c p.price_buffer frame.last prices
        → Provisional c frame q
        → Limits c q.bid q.ask q.order_price q.order_qty
        → Good (send F c prices p (record q { stage = risk; risk_approved = true }))
    unfolding send encode_order
    send_passed q b h l =
        let e = h.signals in
        let l' : Limits c frame.bid frame.ask (crossing_price F q) c.default_qty =
          Limits-along c h.market.same_bid h.market.same_ask h.price h.quantity l in
        let crosses : Crosses frame.bid frame.ask q.signal_direction (crossing_price F q) =
          subst (λ b. Crosses b frame.ask q.signal_direction (crossing_price F q)) h.market.same_bid
            (subst (λ x. Crosses q.bid x q.signal_direction (crossing_price F q)) h.market.same_ask
              (crossing_price-Crosses q e)) in
        rw e (record {
          market = record { same_bid = h.market.same_bid; same_ask = h.market.same_ask };
          counted = rw e refl;
          buffered = b;
          numbered = rw e refl;
          safe = λ _ _. (l', refl, crosses);
        })

    send_idle :
        (q : FpgaFrame F)
        → Buffered c p.price_buffer frame.last prices
        → SameMarket frame q
        → is_signal q.signal_direction ≡ false
        → Good (send F c prices p (record q { stage = risk }))
    unfolding send encode_order
    send_idle q b m e = rw e (record {
      market = record { same_bid = m.same_bid; same_ask = m.same_ask };
      counted = rw e refl;
      buffered = b;
      numbered = rw e refl;
      safe = λ t. absurd (ground (arith, t, e));
    })

    Checked-Good :
        (q : FpgaFrame F) (r : Result Error (FpgaFrame F))
        → Buffered c p.price_buffer frame.last prices
        → Provisional c frame q
        → Checked c q r
        → Outcome Good (OnlyNotFinite F) (r >>= λ g. ok (send F c prices p g))
    Checked-Good q _ b h (raises x e) = e
    Checked-Good q _ b h refused = send_refused q b h
    Checked-Good q _ b h (passed l) = send_passed q b h l

    check_and_send-Good :
        (f : FpgaFrame F)
        → Buffered c p.price_buffer frame.last prices
        → SameMarket frame f
        → Outcome Good (OnlyNotFinite F) (check_and_send F c p (prices, f))
    unfolding check_and_send approve
    check_and_send-Good f b m = elim (Bool-cases (is_signal f.signal_direction)) [
      | inl e ↦
          let h = provisional-Provisional c frame f m e in
          Checked-Good (provisional F c f) _ b h (approve-Checked c (provisional F c f) h.signals)
      | inr e ↦ rw e (rw e (send_idle f b m e))
    ]

  after_signal :
      (c : Parameters F) (frame : FpgaFrame F) (p : FpgaPipeline F)
      (r : Result Error (List F.Float × FpgaFrame F))
      → Outcome
          (λ s. Buffered c p.price_buffer frame.last (s.0) × SameMarket frame (s.1))
          (OnlyNotFinite F)
          r
      → Outcome
          (λ o. Processed c frame p (o.0) (o.1))
          (OnlyNotFinite F)
          (r >>= λ s. check_and_send F c p s)
  after_signal c frame p (ok (prices, f)) h = check_and_send-Good c frame p prices f h.0 (h.1)
  after_signal c frame p (err e) h = h

  from_start :
      (c : Parameters F) (frame : FpgaFrame F) (p : FpgaPipeline F)
      (r : Result Error (List F.Float × FpgaFrame F))
      → Outcome
          (λ s.
            Buffered c p.price_buffer frame.last (s.0)
            × SameMarket (record frame { stage = decode }) (s.1))
          (OnlyNotFinite F)
          r
      → Outcome
          (λ s. Buffered c p.price_buffer frame.last (s.0) × SameMarket frame (s.1))
          (OnlyNotFinite F)
          r
  from_start c frame p (ok (prices, f)) h =
      (h.0, record { same_bid = h.1.same_bid; same_ask = h.1.same_ask })
  from_start c frame p (err e) h = h

  pub process-Processed :
      (c : Parameters F) (frame : FpgaFrame F) (p : FpgaPipeline F)
      → Outcome (λ o. Processed c frame p (o.0) (o.1)) (OnlyNotFinite F) (process F c frame p)
  unfolding process
  process-Processed c frame p =
      let start = record frame { stage = decode } in
      let h = process_signal-Outcome c p.price_buffer start in
      after_signal c frame p _ (from_start c frame p _ h)

  -- A frame goes through the pipeline, whatever the frame, the parameters, the state and the float
  -- operations, where divisions raise only by zero. It comes out, unless a number that is not
  -- finite had to be converted. When it comes out with a signal and the approval, its order has the
  -- default size and is a purchase at the ask or a sale at the bid, as the signal says; it is within
  -- the limits on size and notional value, and within the price band around the middle where the
  -- middle and the price are positive; the order counter goes up for such a frame and no other, and
  -- the statistics count it.
  pub process_lem :
      (c : Parameters F) (frame : FpgaFrame F) (p : FpgaPipeline F)
      → Division F
      → Outcome (λ o. Processed c frame p (o.0) (o.1)) IsNotFinite (process F c frame p)
  process_lem c frame p d =
      with-Division (λ o. Processed c frame p (o.0) (o.1)) (process F c frame p) d
        (process-Processed c frame p)
