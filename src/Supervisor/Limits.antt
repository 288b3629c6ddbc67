-- ===== src/Supervisor/Limits.antt =====
-- The limits of the supervisor: what a closed trade that breaks one of them leads to.
use nexus_trading.Base.{
  Floats, ℕ, ◌≡◌, refl, ap, inl, inr, Bool, true, false, ◌&&◌, some, String, if_both, Bool-cases,
  arith,
}
use nexus_trading.Supervisor.State.{Config, Psa, halted, same_system, Breach, daily_loss_cap}
use nexus_trading.Supervisor.Control.{halt}
use nexus_trading.Supervisor.Trades.{
  check_daily_loss_cap, check_equity, check_day_trades, check_pdt_limit, check_limits, book_trade,
  report_pnl, handle_trade_closed, max_loss, loss_cap_text, equity,
}
use nexus_trading.Supervisor.Halted.{Halted, after_fsm-Halted, breaker_ignored, pdt_ignored}

and_false : (b : Bool) → b && false ≡ false
and_false b = ground arith

module _ {F : Floats} where
  pub halt-Halted :
      (now : ℕ) (r : String) (b : Breach) (s : Psa F)
      → same_system s.system_state halted ≡ false
      → Halted F r (halt F now r b s)
  unfolding halt
  halt-Halted now r b s e =
      let stopped = record s { system_state = halted; halt_reason = some r; anomaly_hold = true } in
      let h : Halted F r stopped = record { state = refl; because = refl; held = refl } in
      let d = after_fsm-Halted _ _ stopped h in
      rw e (record { state = d.state; because = d.because; held = d.held })

  halt_halts :
      (now : ℕ) (r : String) (b : Breach) (s : Psa F)
      → same_system (halt F now r b s).system_state halted ≡ true
  unfolding halt
  halt_halts now r b s = elim (Bool-cases (same_system s.system_state halted)) [
    | inl e ↦ rw e e
    | inr e ↦ ap (λ x. same_system x halted) (halt-Halted now r b s e).state
  ]

  halt_stopped :
      (now : ℕ) (r : String) (b : Breach) (s : Psa F)
      → same_system s.system_state halted ≡ true
      → halt F now r b s ≡ s
  unfolding halt
  halt_stopped now r b s e = rw e

  -- Halting twice is halting once, whatever the second reason, breach and time.
  pub halt-halt :
      (now later : ℕ) (r r' : String) (b b' : Breach) (s : Psa F)
      → halt F later r' b' (halt F now r b s) ≡ halt F now r b s
  halt-halt now later r r' b b' s =
      halt_stopped later r' b' (halt F now r b s) (halt_halts now r b s)

  day_trades_stopped :
      (c : Config F) (now : ℕ) (e : F.Float) (s : Psa F)
      → same_system s.system_state halted ≡ true
      → check_day_trades F c now e s ≡ s
  day_trades_stopped c now e s h = if_both (λ x. x ≡ s) _ (halt_stopped now _ _ s h) refl

  -- The second test of the day-trade limit never does anything: it asks for the equity that the
  -- first test has halted for.
  pub day_trade_limit_is_dead :
      (c : Config F) (now : ℕ) (s : Psa F)
      → check_pdt_limit F c now s ≡ check_equity F c now (equity F s) s
  unfolding check_pdt_limit
  day_trade_limit_is_dead c now s = elim (Bool-cases (F.float_ltb (equity F s) c.pdt_minimum)) [
    | inl low ↦ day_trades_stopped c now (equity F s) _ (rw low (halt_halts now _ _ s))
    | inr enough ↦ rw (enough, and_false _)
  ]

  cap_halts :
      (c : Config F) (now : ℕ) (s : Psa F)
      → same_system s.system_state halted ≡ false
      → F.float_leb s.daily_pnl (F.neg (max_loss F c s)) ≡ true
      → Halted F (loss_cap_text F c s) (report_pnl F (check_limits F c now s))
  unfolding check_limits check_daily_loss_cap report_pnl
  cap_halts c now s e cap =
      let r = loss_cap_text F c s in
      let t = halt F now r daily_loss_cap s in
      let h = halt-Halted now r daily_loss_cap s e in
      rw (cap, breaker_ignored c now t h, pdt_ignored c now t h)
        (record { state = h.state; because = h.because; held = h.held })

  -- When a closed trade brings the day's result to the loss cap or below, a supervisor that was not
  -- halted is halted after it, for that reason.
  pub loss_cap_halts :
      (c : Config F) (now : ℕ) (pnl : F.Float) (s : Psa F)
      → same_system s.system_state halted ≡ false
      → F.float_leb (F.add s.daily_pnl pnl) (F.neg (F.mul s.current_equity c.daily_max_loss_pct))
        ≡ true
      → let booked = record s { daily_pnl = F.add s.daily_pnl pnl } in
        Halted F (loss_cap_text F c booked) (handle_trade_closed F c now (some pnl) s)
  unfolding handle_trade_closed book_trade
  loss_cap_halts c now pnl s e cap = elim (Bool-cases (F.float_ltb (F.float_of 0) pnl)) [
    | inl won ↦ rw won (cap_halts c now _ e cap)
    | inr lost ↦ rw lost (cap_halts c now _ e cap)
  ]
