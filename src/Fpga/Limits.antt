-- ===== src/Fpga/Limits.antt =====
-- What a frame has passed when the pipeline has encoded an order into it, and what it can raise.
use nexus_trading.Base.{
  Floats, ℕ, ◌≡◌, ◌≤◌, ◌⊎◌, refl, inl, inr, Bool, true, false, not, some, ltb, Result, ok, err,
  ◌>>=◌, Bool-cases, Option-cases, arith,
}
use nexus_trading.Fpga.Frame.{
  Direction, up, down, is_signal, risk, Error, zero_division, FpgaFrame, Parameters,
}
use nexus_trading.Fpga.Signals.{OnlyNotFinite, never_none}
use nexus_trading.Fpga.Units.{crossing_price, off_band, check_limits, approve}

module _ (F : Floats) where
  -- A price at most so many basis points from a middle; the risk unit looks at it only where the
  -- middle and the price are positive.
  abbrev pub InBand : F.Float → F.Float → F.Float → Type 0
  InBand band mid price =
      (F.float_ltb (F.float_of 0) mid ≡ false)
      ⊎ (F.float_ltb (F.float_of 0) price ≡ false)
      ⊎ ((deviation : F.Float) × (F.div (F.float_abs (F.sub price mid)) mid ≡ some deviation)
          × (F.float_ltb band (F.mul deviation (F.float_of 10000)) ≡ false))

-- A purchase at the ask, or a sale at the bid.
abbrev pub Crosses : {A : Type 0} → A → A → Direction → A → Type 0
Crosses bid ask direction price =
    ((direction ≡ up) × (price ≡ ask)) ⊎ ((direction ≡ down) × (price ≡ bid))

module _ {F : Floats} where
  pub crossing_price-Crosses :
      (f : FpgaFrame F)
      → is_signal f.signal_direction ≡ true
      → Crosses f.bid f.ask f.signal_direction (crossing_price F f)
  crossing_price-Crosses f e = ground (arith, e)

  -- What the risk unit asks of an order of a quantity and a price.
  pub record Limits (c : Parameters F) (bid ask price : F.Float) (qty : ℕ) : Type 0 where
    pub size : qty ≤ c.max_order_size
    pub mid : F.Float
    pub is_mid : F.div (F.add bid ask) (F.float_of 2) ≡ some mid
    pub notional : F.float_ltb c.max_notional_usd (F.mul (F.float_of qty) mid) ≡ false
    pub band : InBand F c.price_band_bps mid price

  -- The three results of the checks.
  pub data Checked (c : Parameters F) (f : FpgaFrame F) : Result Error (FpgaFrame F) → Type 0 where
    raises : (e : Error) → OnlyNotFinite F e → Checked c f (err e)
    refused : Checked c f (ok (record f { stage = risk; risk_approved = false }))
    passed :
        Limits c f.bid f.ask f.order_price f.order_qty
        → Checked c f (ok (record f { stage = risk; risk_approved = true }))

  -- The division of the band is behind a test of the middle.
  off_band-OnlyNotFinite :
      (c : Parameters F) (mid price : F.Float) (e : Error)
      → off_band F c mid price ≡ err e
      → OnlyNotFinite F e
  off_band-OnlyNotFinite c mid price e h =
      let d = F.div (F.float_abs (F.sub price mid)) mid in
      elim (Bool-cases (F.float_ltb (F.float_of 0) mid)) [
        | inl positive ↦ elim (Option-cases d) [
          | inl z ↦ never_none d z (λ division. division.gt_zero _ mid positive)
          | inr (q, s) ↦ λ division. absurd (ground (arith, h, positive, s))
        ]
        | inr low ↦ λ division. absurd (ground (arith, h, low))
      ]

  off_band-InBand :
      (c : Parameters F) (mid price : F.Float)
      → off_band F c mid price ≡ ok false
      → InBand F c.price_band_bps mid price
  off_band-InBand c mid price h = elim (Bool-cases (F.float_ltb (F.float_of 0) mid)) [
    | inr low ↦ inl low
    | inl positive ↦ elim (Bool-cases (F.float_ltb (F.float_of 0) price)) [
      | inr low ↦ inr (inl low)
      | inl priced ↦ elim (Option-cases (F.div (F.float_abs (F.sub price mid)) mid)) [
        | inl z ↦ absurd (ground (arith, h, positive, priced, z))
        | inr (deviation, d) ↦ inr (inr (deviation, d, ground (arith, h, positive, priced, d)))
      ]
    ]
  ]

  off_band-Checked :
      (c : Parameters F) (f : FpgaFrame F) (mid : F.Float) (off : Result Error Bool)
      → off_band F c mid f.order_price ≡ off
      → ltb c.max_order_size f.order_qty ≡ false
      → F.div (F.add f.bid f.ask) (F.float_of 2) ≡ some mid
      → F.float_ltb c.max_notional_usd (F.mul (F.float_of f.order_qty) mid) ≡ false
      → Checked c f (off >>= λ o. ok (record f { stage = risk; risk_approved = not o }))
  off_band-Checked c f mid (err e) b s m n =
      raises e (off_band-OnlyNotFinite c mid f.order_price e b)
  off_band-Checked c f mid (ok true) b s m n = refused
  off_band-Checked c f mid (ok false) b s m n = passed (record {
    size = ground (arith, s);
    mid = mid;
    is_mid = m;
    notional = n;
    band = off_band-InBand c mid f.order_price b;
  })

  limits-Checked :
      (c : Parameters F) (f : FpgaFrame F) (mid : F.Float)
      → F.div (F.add f.bid f.ask) (F.float_of 2) ≡ some mid
      → Checked c f (check_limits F c mid (record f { stage = risk }))
  limits-Checked c f mid m = elim (Bool-cases (ltb c.max_order_size f.order_qty)) [
    | inl large ↦ rw large refused
    | inr s ↦
        elim (Bool-cases (F.float_ltb c.max_notional_usd (F.mul (F.float_of f.order_qty) mid))) [
          | inl large ↦ rw (s, large) refused
          | inr n ↦ rw (s, n) (off_band-Checked c f mid _ refl s m n)
        ]
  ]

  pub approve-Checked :
      (c : Parameters F) (f : FpgaFrame F)
      → is_signal f.signal_direction ≡ true
      → Checked c f (approve F c f)
  unfolding approve
  approve-Checked c f e = elim (Option-cases (F.div (F.add f.bid f.ask) (F.float_of 2))) [
    | inl z ↦
        rw (e, z)
          (raises zero_division (never_none _ z (λ division. division.not_zero _ 2 (omega arith))))
    | inr (mid, m) ↦ rw (e, m) (limits-Checked c f mid m)
  ]
