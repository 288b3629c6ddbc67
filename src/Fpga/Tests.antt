-- ===== src/Fpga/Tests.antt =====
-- Concrete frames through the pipeline, in whole numbers.
use nexus_trading.Base.{
  Division, ℕ, ◌≡◌, refl, false, some, List, [], ◌∷◌, ℤ, pos, Result, ok, err, Outcome,
  push_bounded, pos_part, neg_part, ◌+◌, ◌==◌, arith,
}
use nexus_trading.Fpga.Frame.{no_signal, up, decode, Error, FpgaFrame, Parameters, FpgaPipeline}
use nexus_trading.Fpga.Units.{process}
use nexus_trading.Fpga.Signals.{IsNotFinite}
use nexus_trading.Fpga.Safety.{Processed, process_lem}
use nexus_trading.Fpga.Runs.{new_pipeline, run, Balanced, new-Balanced}
use nexus_trading.Supervisor.Tests.{cents, div_int}

abbrev parameters : Parameters cents
parameters = record {
  spread_threshold_bps = pos 500;
  momentum_window = 8;
  signal_threshold = pos 1;
  max_order_size = 5000;
  max_notional_usd = pos 50000000;
  price_band_bps = pos 5000;
  default_qty = 100;
}

-- A market at 1000 to 1001 with a last price.
abbrev tick : ℕ → FpgaFrame cents
tick price = record {
  sequence = 0;
  symbol = [];
  bid = pos 1000;
  ask = pos 1001;
  last = pos price;
  volume = 1;
  timestamp_ns = 0;
  stage = decode;
  signal_strength = 0;
  signal_direction = no_signal;
  risk_approved = false;
  order_qty = 0;
  order_price = pos 0;
}

-- The prices rise: the third frame makes an order.
abbrev rising : List (FpgaFrame cents)
rising = tick 1000 ∷ tick 2000 ∷ tick 3000 ∷ []

abbrev third : FpgaPipeline cents
third = record {
  price_buffer = pos 1000 ∷ pos 2000 ∷ [];
  order_seq = 0;
  stats = record {
    frames_processed = 2;
    signals_generated = 0;
    risk_rejections = 0;
    total_latency_ns = 160;
  };
}

abbrev order_count : Result Error (FpgaPipeline cents) → ℕ
order_count (ok p) = p.order_seq
order_count (err _) = 0

makes_an_order : order_count (run cents parameters rising (new_pipeline cents)) ≡ 1
unfolding run new_pipeline process push_bounded
makes_an_order = refl

-- A frame that is used again: its signal of an earlier tick makes an order in a market that is too
-- wide for a signal.
abbrev used_again : FpgaFrame cents
used_again = record (tick 3000) { ask = pos 1600; signal_direction = up }

abbrev orders_after : Result Error (FpgaFrame cents × FpgaPipeline cents) → ℕ
orders_after (ok o) = (o.1).order_seq
orders_after (err _) = 0

old_signal_makes_an_order : orders_after (process cents parameters used_again third) ≡ 1
unfolding process push_bounded
old_signal_makes_an_order = refl

divides : (a b : ℤ) → (pos_part b + neg_part b == 0) ≡ false → (q : ℤ) × (div_int a b ≡ some q)
divides a b e = rw e (_, refl)

pub cents-Division : Division cents
cents-Division = record {
  not_le_zero = λ a b h. divides a b (ground (arith, h));
  gt_zero = λ a b h. divides a b (ground (arith, h));
  not_zero = λ a n h. divides a (pos n) (ground (arith, h));
}

process_lem_example :
    Outcome
      (λ o. Processed parameters (tick 3000) third (o.0) (o.1))
      IsNotFinite
      (process cents parameters (tick 3000) third)
process_lem_example = process_lem parameters (tick 3000) third cents-Division

new-Balanced_example :
    Outcome (Balanced parameters 3) IsNotFinite (run cents parameters rising (new_pipeline cents))
new-Balanced_example = new-Balanced parameters rising cents-Division
