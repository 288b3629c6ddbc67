-- ===== src/Fpga/Runs.antt =====
-- Frames through the pipeline one after another, and the balance of its counters.
use nexus_trading.Base.{
  Floats, Division, ℕ, suc, ◌+◌, ◌*◌, ◌≡◌, ◌≤◌, refl, sym, ap, subst, ◌∙◌, inl, inr, ◌&&◌, Bool,
  true, false, not, List, [], ◌∷◌, length, push_bounded-le, if◌then◌else◌, Result, ok, err, ◌>>=◌,
  Outcome, arith,
}
use nexus_trading.Fpga.Frame.{
  is_signal, Error, FpgaFrame, Parameters, FpgaPipeline, fpga_latency_ns,
}
use nexus_trading.Fpga.Units.{process}
use nexus_trading.Fpga.Signals.{OnlyNotFinite, IsNotFinite, with-Division}
use nexus_trading.Fpga.Safety.{Processed, process-Processed}

module _ (F : Floats) where
  -- `FPGAPipeline.__init__`
  unfoldable pub new_pipeline : FpgaPipeline F
  new_pipeline = record {
    price_buffer = [];
    order_seq = 0;
    stats = record {
      frames_processed = 0;
      signals_generated = 0;
      risk_rejections = 0;
      total_latency_ns = 0;
    };
  }

  -- A series of frames ends with the first that raises.
  unfoldable pub run :
      Parameters F → List (FpgaFrame F) → FpgaPipeline F → Result Error (FpgaPipeline F)
  run c [] p = ok p
  run c (f ∷ fs) p = process F c f p >>= λ o. run c fs (o.1)

-- A frame adds one to the signals when it adds one to the rejections or to the orders.
balance :
    (i a : Bool) (s r o : ℕ)
    → s ≡ r + o
    → (if i then suc s else s) ≡ (if i && not a then suc r else r) + (if i && a then suc o else o)
balance true true s r o h = omega (arith, h)
balance true false s r o h = omega (arith, h)
balance false a s r o h = omega (arith, h)

module _ {F : Floats} where
  pub record Balanced (c : Parameters F) (n : ℕ) (p : FpgaPipeline F) : Type 0 where
    pub frames : p.stats.frames_processed ≡ n
    pub latency : p.stats.total_latency_ns ≡ n * fpga_latency_ns
    pub signals : p.stats.signals_generated ≡ p.stats.risk_rejections + p.order_seq
    pub prices : length p.price_buffer ≤ c.momentum_window

  Processed-Balanced :
      (c : Parameters F) (n : ℕ) (frame out : FpgaFrame F) (p p' : FpgaPipeline F)
      → Processed c frame p out p'
      → Balanced c n p
      → Balanced c (suc n) p'
  Processed-Balanced c n frame out p p' h b =
      let s = h.counted in
      let i = is_signal out.signal_direction in
      let a = out.risk_approved in
      let r = p.stats.risk_rejections in
      record {
        frames = ap (λ t. t.frames_processed) s ∙ ap suc b.frames;
        latency =
            ap (λ t. t.total_latency_ns) s ∙ ap (λ m. m + fpga_latency_ns) b.latency ∙ omega arith;
        signals =
            ap (λ t. t.signals_generated) s
            ∙ balance i a p.stats.signals_generated r p.order_seq b.signals
            ∙ ap (λ m. (if i && not a then suc r else r) + m) (sym h.numbered)
            ∙ sym (ap (λ t. t.risk_rejections + p'.order_seq) s);
        prices = elim h.buffered [
          | inl same ↦ subst (λ xs. length xs ≤ c.momentum_window) (sym same) b.prices
          | inr longer ↦
              subst (λ xs. length xs ≤ c.momentum_window) (sym longer)
                (push_bounded-le c.momentum_window p.price_buffer frame.last b.prices)
        ];
      }

  after_process :
      (c : Parameters F) (f : FpgaFrame F) (fs : List (FpgaFrame F)) (n : ℕ) (p : FpgaPipeline F)
      (r : Result Error (FpgaFrame F × FpgaPipeline F))
      → Balanced c n p
      → ((p' : FpgaPipeline F)
          → Balanced c (suc n) p'
          → Outcome (Balanced c (suc n + length fs)) (OnlyNotFinite F) (run F c fs p'))
      → Outcome (λ o. Processed c f p (o.0) (o.1)) (OnlyNotFinite F) r
      → Outcome (Balanced c (suc n + length fs)) (OnlyNotFinite F) (r >>= λ o. run F c fs (o.1))
  after_process c f fs n p (ok (out, p')) b rest h = rest p' (Processed-Balanced c n f out p p' h b)
  after_process c f fs n p (err e) b rest h = h

  run-Balanced :
      (c : Parameters F) (fs : List (FpgaFrame F)) (n : ℕ) (p : FpgaPipeline F)
      → Balanced c n p
      → Outcome (Balanced c (n + length fs)) (OnlyNotFinite F) (run F c fs p)
  unfolding run
  run-Balanced c [] n p b = subst (λ m. Balanced c m p) (omega arith) b
  run-Balanced c (f ∷ fs) n p b =
      let after =
        after_process c f fs n p (process F c f p) b (λ p' b'. run-Balanced c fs (suc n) p' b')
          (process-Processed c f p) in
      subst (λ m. Outcome (Balanced c m) (OnlyNotFinite F) (run F c (f ∷ fs) p)) (omega arith) after

  -- After any series of frames through a new pipeline, where divisions raise only by zero: if none
  -- raises, the frames are counted, the latency is 80 ns a frame, every signal is either a
  -- rejection or a numbered order, and the price buffer holds at most a window of prices. If one
  -- raises, it is the conversion of a number that is not finite.
  pub new-Balanced :
      (c : Parameters F) (fs : List (FpgaFrame F))
      → Division F
      → Outcome (Balanced c (length fs)) IsNotFinite (run F c fs (new_pipeline F))
  unfolding new_pipeline
  new-Balanced c fs d =
      let b : Balanced c 0 (new_pipeline F) = record {
        frames = refl;
        latency = refl;
        signals = refl;
        prices = omega arith;
      } in
      let e : 0 + length fs ≡ length fs = omega arith in
      with-Division (Balanced c (length fs)) (run F c fs (new_pipeline F)) d (
        subst (λ m. Outcome (Balanced c m) (OnlyNotFinite F) (run F c fs (new_pipeline F))) e
          (run-Balanced c fs 0 (new_pipeline F) b))
