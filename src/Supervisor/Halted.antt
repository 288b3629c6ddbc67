-- ===== src/Supervisor/Halted.antt =====
-- The halted supervisor: what keeps it halted, and what a halt blocks.
use nexus_trading.Base.{
  Floats, ℕ, ◌≡◌, refl, subst, sym, ap, inl, inr, Bool, true, false, Option, none, some, List, [],
  ◌∷◌, String, leb, if_both, Bool-cases, Result, ok, err, arith,
}
use nexus_trading.Session.Machine.{World, Error}
use nexus_trading.Supervisor.State.{
  Config, Psa, halted, same_system, Breach, Alert, bus_failure, feed_anomaly,
  reconciliation_mismatch, other_alert,
}
use nexus_trading.Supervisor.Control.{
  after_fsm, halt, pause, auto_resume, hold_for, handle_psa_alert, is_trading_allowed,
  on_session_start,
}
use nexus_trading.Supervisor.Trades.{
  check_daily_loss_cap, check_stopouts, check_velocity, check_circuit_breaker, check_equity,
  check_day_trades, check_pdt_limit, check_limits, book_trade, report_pnl, handle_trade_closed,
  handle_reconciliation, process, on_kill_switch, trade_closed, psa_alert, reconciliation_status,
  fill_event, daily_pnl_message, system_state_message, other_topic, Incoming, or_default,
}
use nexus_trading.Supervisor.Runs.{
  Event, receives, session_starts, kill_switched, nap_ends, session_call, step, run, wake,
  approves_resume, any_resume, nap_over,
}
use nexus_trading.Session.States.{same_state}
use nexus_trading.Session.Runs

-- What a halt sets, and only an approved resume undoes.
pub record Halted (F : Floats) (reason : String) (s : Psa F) : Type 0 where
  pub state : s.system_state ≡ halted
  pub because : s.halt_reason ≡ some reason
  pub held : s.anomaly_hold ≡ true

module _ {F : Floats} {reason : String} where
  is_halted : (s : Psa F) → Halted F reason s → same_system s.system_state halted ≡ true
  is_halted s h = ap (λ x. same_system x halted) h.state

  pub after_fsm-Halted :
      (r : Result Error Bool) (w : World) (s : Psa F)
      → Halted F reason s
      → Halted F reason (after_fsm F r w s)
  after_fsm-Halted (ok true) w s h = record { state = h.state; because = h.because; held = h.held }
  after_fsm-Halted (ok false) w s h = record { state = h.state; because = h.because; held = h.held }
  after_fsm-Halted (err e) w s h = record { state = h.state; because = h.because; held = h.held }

  halt_ignored :
      (now : ℕ) (r : String) (b : Breach) (s : Psa F) → Halted F reason s → halt F now r b s ≡ s
  unfolding halt
  halt_ignored now r b s h = rw (is_halted s h)

  pause_ignored :
      (now : ℕ) (r : String) (d : ℕ) (s : Psa F) → Halted F reason s → pause F now r d s ≡ s
  unfolding pause
  pause_ignored now r d s h = rw (is_halted s h)

  nap-Halted : (s : Psa F) → Halted F reason s → auto_resume F s ≡ s
  unfolding auto_resume
  nap-Halted s h = rw h.state

  pub breaker_ignored :
      (c : Config F) (now : ℕ) (s : Psa F) → Halted F reason s → check_circuit_breaker F c now s ≡ s
  unfolding check_circuit_breaker
  breaker_ignored c now s h =
      let Same : Psa F → Type 0 = λ t. t ≡ s in
      let stops : check_stopouts F c now s ≡ s = if_both Same _ (pause_ignored now _ _ s h) refl in
      let velocity : check_velocity F c now s ≡ s =
        if_both Same _ (pause_ignored now _ _ s h) refl in
      rw (stops, velocity)

  pub pdt_ignored :
      (c : Config F) (now : ℕ) (s : Psa F) → Halted F reason s → check_pdt_limit F c now s ≡ s
  unfolding check_pdt_limit
  pdt_ignored c now s h =
      let Same : Psa F → Type 0 = λ t. t ≡ s in
      let low : (e : F.Float) → check_equity F c now e s ≡ s =
        λ e. if_both Same _ (halt_ignored now _ _ s h) refl in
      let day : (e : F.Float) → check_day_trades F c now e s ≡ s =
        λ e. if_both Same _ (halt_ignored now _ _ s h) refl in
      rw (low, day)

  cap_ignored :
      (c : Config F) (now : ℕ) (s : Psa F) → Halted F reason s → check_daily_loss_cap F c now s ≡ s
  unfolding check_daily_loss_cap
  cap_ignored c now s h = if_both (λ t. t ≡ s) _ (halt_ignored now _ _ s h) refl

  checks_ignored :
      (c : Config F) (now : ℕ) (s : Psa F) → Halted F reason s → check_limits F c now s ≡ s
  unfolding check_limits
  checks_ignored c now s h =
      rw (cap_ignored c now s h, breaker_ignored c now s h, pdt_ignored c now s h)

  book_trade-Halted :
      (now : ℕ) (pnl : F.Float) (s : Psa F)
      → Halted F reason s
      → Halted F reason (book_trade F now pnl s)
  unfolding book_trade
  book_trade-Halted now pnl s h = elim (Bool-cases (F.float_ltb (F.float_of 0) pnl)) [
    | inl won ↦ rw won (record { state = h.state; because = h.because; held = h.held })
    | inr lost ↦ rw lost (record { state = h.state; because = h.because; held = h.held })
  ]

  trade-Halted :
      (c : Config F) (now : ℕ) (trade : Option F.Float) (s : Psa F)
      → Halted F reason s
      → Halted F reason (handle_trade_closed F c now trade s)
  unfolding handle_trade_closed report_pnl
  trade-Halted c now none s h = h
  trade-Halted c now (some pnl) s h =
      let b = book_trade-Halted now pnl s h in
      rw (checks_ignored c now (book_trade F now pnl s) b)
        (record { state = b.state; because = b.because; held = b.held })

  hold_for-Halted :
      (a : Alert) (r : String) (s : Psa F) → Halted F reason s → Halted F reason (hold_for F a r s)
  hold_for-Halted feed_anomaly r s h = record { state = h.state; because = h.because; held = refl }
  hold_for-Halted reconciliation_mismatch r s h = record {
    state = h.state;
    because = h.because;
    held = refl;
  }
  hold_for-Halted bus_failure r s h = record { state = h.state; because = h.because; held = refl }
  hold_for-Halted (other_alert t) r s h = h

  alert-Halted :
      (now : ℕ) (a : Alert) (r : String) (s : Psa F)
      → Halted F reason s
      → Halted F reason (handle_psa_alert F now a r s)
  unfolding handle_psa_alert
  alert-Halted now bus_failure r s h =
      rw (halt_ignored now _ _ (hold_for F bus_failure r s) (hold_for-Halted bus_failure r s h))
        (hold_for-Halted bus_failure r s h)
  alert-Halted now feed_anomaly r s h = hold_for-Halted feed_anomaly r s h
  alert-Halted now reconciliation_mismatch r s h = hold_for-Halted reconciliation_mismatch r s h
  alert-Halted now (other_alert t) r s h = hold_for-Halted (other_alert t) r s h

  process-Halted :
      (c : Config F) (now : ℕ) (m : Incoming F) (s : Psa F)
      → approves_resume F (receives now m) ≡ false
      → Halted F reason s
      → Halted F reason (process F c now m s)
  unfolding process handle_reconciliation
  process-Halted c now (trade_closed trade) s e h = trade-Halted c now trade s h
  process-Halted c now (psa_alert a r) s e h = alert-Halted now _ _ s h
  process-Halted c now (reconciliation_status mismatch d) s e h =
      if_both (Halted F reason) mismatch (alert-Halted now _ _ s h) h
  process-Halted c now fill_event s e h = record {
    state = h.state;
    because = h.because;
    held = h.held;
  }
  process-Halted c now (daily_pnl_message pnl account) s e h =
      let t = record s {
        daily_pnl = or_default pnl s.daily_pnl;
        current_equity = or_default account s.current_equity;
      } in
      let h' : Halted F reason t = record { state = h.state; because = h.because; held = h.held } in
      subst (Halted F reason) (sym (cap_ignored c now t h')) h'
  process-Halted c now (system_state_message resume by) s e h = rw e h
  process-Halted c now other_topic s e h = h

  wake-Halted :
      (i now : ℕ) (nap : Option ℕ) (s : Psa F)
      → Halted F reason s
      → Halted F reason (wake F i now nap s)
  wake-Halted i now none s h = h
  wake-Halted i now (some due) s h =
      let t = record s { naps = nap_over i s.naps } in
      let h' : Halted F reason t = record { state = h.state; because = h.because; held = h.held } in
      if_both (Halted F reason) (leb due now) (subst (Halted F reason) (sym (nap-Halted t h')) h') h

  step-Halted :
      (c : Config F) (e : Event F) (s : Psa F)
      → approves_resume F e ≡ false
      → Halted F reason s
      → Halted F reason (step F c e s)
  unfolding step on_session_start on_kill_switch
  step-Halted c (receives now m) s e h = process-Halted c now m s e h
  step-Halted c (session_starts now) s e h =
      if_both (Halted F reason) _ (after_fsm-Halted _ _ s h) h
  step-Halted c (kill_switched now r by) s e h =
      subst (Halted F reason) (sym (halt_ignored now _ _ s h)) h
  step-Halted c (nap_ends i now) s e h = wake-Halted i now _ s h
  step-Halted c (session_call call) s e h =
      elim (Bool-cases
        (same_state (Runs.step call s.session).machine.state s.session.machine.state)) [
          | inl same ↦ rw same (record { state = h.state; because = h.because; held = h.held })
          | inr moved ↦ rw moved (record { state = h.state; because = h.because; held = h.held })
        ]

  -- A halted supervisor stays halted, for the same reason, and allows no trading at any time,
  -- through any messages, timers, kill switches and calls of its session machine, unless one of
  -- the messages is a resume command that names an approver.
  pub no_trading_until_resumed :
      (c : Config F) (es : List (Event F)) (s : Psa F) (later : ℕ)
      → any_resume F es ≡ false
      → Halted F reason s
      → Halted F reason (run F c es s) × (is_trading_allowed F later (run F c es s) ≡ false)
  unfolding run is_trading_allowed
  no_trading_until_resumed c [] s later e h = (h, rw h.held (if_both (λ x. x ≡ false) _ refl refl))
  no_trading_until_resumed c (x ∷ xs) s later e h =
      no_trading_until_resumed c xs (step F c x s) later (ground (arith, e))
        (step-Halted c x s (ground (arith, e)) h)
