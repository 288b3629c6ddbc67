-- ===== src/Fpga/Signals.antt =====
-- The signal unit: what it keeps of a frame, what becomes of its price buffer, what it can raise.
use nexus_trading.Base.{
  Floats, Division, ℕ, ◌-◌, ◌/◌, ◌≡◌, ◌≢◌, ◌⊎◌, refl, inl, inr, ◌||◌, Bool, false, Option, none,
  some, List, ltb, length, take, drop, push_bounded, Result, ok, err, ◌>>=◌, Outcome, Bool-cases,
  Option-cases, arith,
}
use nexus_trading.Fpga.Frame.{Direction, Error, not_finite, FpgaFrame, Parameters, signal}
use nexus_trading.Fpga.Units.{bps, sum_from, set_signal, from_prices, process_signal}

-- With divisions that do not raise, only the conversion of a number that is not finite does.
abbrev pub OnlyNotFinite : Floats → Error → Type 0
OnlyNotFinite F e = Division F → e ≡ not_finite

abbrev pub IsNotFinite : Error → Type 0
IsNotFinite e = e ≡ not_finite

pub with-Division :
    {F : Floats} {A : Type 0} (P : A → Type 0) (r : Result Error A)
    → Division F
    → Outcome P (OnlyNotFinite F) r
    → Outcome P IsNotFinite r
with-Division P (ok a) d h = h
with-Division P (err e) d h = h d

right_false : (a b : Bool) → a || b ≡ false → b ≡ false
right_false a b h = ground (arith, h)

module _ {F : Floats} where
  -- The stages keep the market data of a frame.
  pub record SameMarket (f g : FpgaFrame F) : Type 0 where
    pub same_bid : g.bid ≡ f.bid
    pub same_ask : g.ask ≡ f.ask

  -- A division that can raise although divisions do not: there is none.
  pub never_none :
      (d : Option F.Float) {e : Error}
      → d ≡ none
      → (Division F → (q : F.Float) × (d ≡ some q))
      → OnlyNotFinite F e
  never_none d z h division = absurd (ground (arith, z, (h division).1))

  set_signal-SameMarket :
      (c : Parameters F) (recent older : F.Float) (f : FpgaFrame F)
      → Outcome (SameMarket f) (OnlyNotFinite F) (set_signal F c recent older f)
  unfolding set_signal
  set_signal-SameMarket c recent older f =
      let kept : (n : ℕ) (d : Direction)
          → SameMarket f (record f { signal_strength = n; signal_direction = d }) =
        λ n d. record { same_bid = refl; same_ask = refl } in
      elim (Bool-cases (F.float_leb older (F.float_of 0))) [
        | inl low ↦ rw low (record { same_bid = refl; same_ask = refl })
        | inr positive ↦ elim (Option-cases (F.div (F.sub recent older) older)) [
          | inl z ↦
              rw (positive, z) (never_none _ z (λ division. division.not_le_zero _ older positive))
          | inr (slope, s) ↦
              elim (Option-cases (F.truncate (F.mul (F.float_abs (bps F slope)) (F.float_of 10)))) [
                | inl infinite ↦ rw (positive, s, infinite) (λ division. refl)
                | inr (n, t) ↦ rw (positive, s, t) (kept _ _)
              ]
        ]
      ]

  from_prices-SameMarket :
      (c : Parameters F) (prices : List F.Float) (f : FpgaFrame F)
      → Outcome (SameMarket f) (OnlyNotFinite F) (from_prices F c prices f)
  unfolding from_prices
  from_prices-SameMarket c prices f =
      let n = length prices in
      let mid = n / 2 in
      let sum : List F.Float → F.Float = sum_from F (F.float_of 0) in
      elim (Bool-cases (ltb n 3)) [
        | inl few ↦ rw few (record { same_bid = refl; same_ask = refl })
        | inr many ↦
            let upper : n - mid ≢ 0 = λ e. ground (arith, e, many) in
            let lower : mid ≢ 0 = λ e. ground (arith, e, many) in
            elim (Option-cases (F.div (sum (drop mid prices)) (F.float_of (n - mid)))) [
              | inl z ↦ rw (many, z) (never_none _ z (λ division. division.not_zero _ _ upper))
              | inr (recent, r) ↦
                  elim (Option-cases (F.div (sum (take mid prices)) (F.float_of mid))) [
                    | inl z ↦
                        rw (many, r, z) (never_none _ z (λ division. division.not_zero _ _ lower))
                    | inr (older, o) ↦ rw (many, r, o) (set_signal-SameMarket c recent older f)
                  ]
            ]
      ]

  -- The buffer afterwards: as it was, or with the last price appended.
  abbrev pub Buffered : Parameters F → List F.Float → F.Float → List F.Float → Type 0
  Buffered c buffer price prices =
      (prices ≡ buffer) ⊎ (prices ≡ push_bounded c.momentum_window buffer price)

  with_prices :
      (c : Parameters F) (buffer : List F.Float) (f : FpgaFrame F) (r : Result Error (FpgaFrame F))
      → Outcome (SameMarket (record f { stage = signal })) (OnlyNotFinite F) r
      → let prices = push_bounded c.momentum_window buffer f.last in
        Outcome {A = List F.Float × FpgaFrame F}
          (λ r. Buffered c buffer f.last (r.0) × SameMarket f (r.1))
          (OnlyNotFinite F)
          (r >>= λ g. ok (prices, g))
  with_prices c buffer f (ok g) h =
      (inr refl, record { same_bid = h.same_bid; same_ask = h.same_ask })
  with_prices c buffer f (err e) h = h

  pub process_signal-Outcome :
      (c : Parameters F) (buffer : List F.Float) (f : FpgaFrame F)
      → Outcome
          (λ r. Buffered c buffer f.last (r.0) × SameMarket f (r.1))
          (OnlyNotFinite F)
          (process_signal F c buffer f)
  unfolding process_signal
  process_signal-Outcome c buffer f =
      let g = record f { stage = signal } in
      let kept : SameMarket f g = record { same_bid = refl; same_ask = refl } in
      elim (Bool-cases (F.float_leb f.ask (F.float_of 0) || F.float_leb f.bid (F.float_of 0))) [
        | inl dead ↦ rw dead (inl refl, kept)
        | inr alive ↦ elim (Option-cases (F.div (F.sub f.ask f.bid) f.bid)) [
          | inl z ↦
              rw (alive, z)
                (never_none _ z (λ division. division.not_le_zero _ f.bid (right_false _ _ alive)))
          | inr (spread, s) ↦
              elim (Bool-cases (F.float_ltb c.spread_threshold_bps (bps F spread))) [
                | inl wide ↦ rw (alive, s, wide) (inl refl, kept)
                | inr narrow ↦
                    rw (alive, s, narrow)
                      (with_prices c buffer f _
                        (from_prices-SameMarket c (push_bounded c.momentum_window buffer f.last) g))
              ]
        ]
      ]
