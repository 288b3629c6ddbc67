-- ===== src/Fpga/Frame.antt =====
-- FPGAFrame, PipelineStats, the parameters of the three units, and the state of the pipeline.
use nexus_trading.Base.{Floats, ℕ, ◌*◌, ◌+◌, Bool, true, false, List}

-- The values 0, 1 and -1 of `signal_direction`.
pub data Direction : Type 0 where
  no_signal up down : Direction

abbrev pub is_signal : Direction → Bool
is_signal no_signal = false
is_signal up = true
is_signal down = true

pub data PipelineStage : Type 0 where
  decode signal risk encode transmit : PipelineStage

-- FPGA_LATENCY_NS
abbrev pub fpga_latency_ns : ℕ
fpga_latency_ns = 5 * 4 + 60

pub data Error : Type 0 where
  -- ZeroDivisionError, and what int() raises on NaN and infinity
  zero_division not_finite : Error

pub record PipelineStats : Type 0 where
  pub frames_processed : ℕ
  pub signals_generated : ℕ
  pub risk_rejections : ℕ
  pub total_latency_ns : ℕ

module _ (F : Floats) where
  -- A symbol is its bytes.
  pub record FpgaFrame : Type 0 where
    pub sequence : ℕ
    pub symbol : List ℕ
    pub bid : F.Float
    pub ask : F.Float
    pub last : F.Float
    pub volume : ℕ
    pub timestamp_ns : ℕ
    pub stage : PipelineStage
    pub signal_strength : ℕ
    pub signal_direction : Direction
    pub risk_approved : Bool
    pub order_qty : ℕ
    pub order_price : F.Float

  -- What the constructors of FPGASignalUnit, FPGARiskUnit and FPGAOrderUnit are given.
  pub record Parameters : Type 0 where
    pub spread_threshold_bps : F.Float
    pub momentum_window : ℕ
    pub signal_threshold : F.Float
    pub max_order_size : ℕ
    pub max_notional_usd : F.Float
    pub price_band_bps : F.Float
    pub default_qty : ℕ

  -- The fields of the units and of the pipeline that change.
  pub record FpgaPipeline : Type 0 where
    pub price_buffer : List F.Float
    pub order_seq : ℕ
    pub stats : PipelineStats
