-- ===== src/Supervisor/Holds.antt =====
-- The holds and pauses of the supervisor: who can end them, and the day's result that comes back.
use nexus_trading.Base.{
  Floats, ℕ, suc, ◌≡◌, refl, ap, ◌∙◌, inl, inr, true, false, Option, some, List, [], ◌∷◌, ◌++◌,
  String, if_both, Bool-cases, text_truthy,
}
use nexus_trading.Supervisor.State.{Config, Psa, halted, same_system, Message, daily_pnl_published}
use nexus_trading.Supervisor.Control.{handle_resume, handle_psa_alert, is_trading_allowed}
use nexus_trading.Supervisor.Trades.{
  process, handle_reconciliation, handle_trade_closed, check_daily_loss_cap, book_trade,
  check_limits, report_pnl, equity, reconciliation_status, system_state_message, daily_pnl_message,
}
use nexus_trading.Supervisor.Runs.{Event, receives, run, step}
use nexus_trading.Supervisor.Stopouts.{books, checked, cap-Kept}

module _ {F : Floats} where
  -- Resume commands with approvers, each at its time.
  abbrev pub resume_commands : List (ℕ × Option String) → List (Event F)
  resume_commands [] = []
  resume_commands ((now, by) ∷ rest) =
      receives now (system_state_message true by) ∷ resume_commands rest

  resume_ignored :
      (now : ℕ) (by : String) (s : Psa F)
      → same_system s.system_state halted ≡ false
      → handle_resume F now by s ≡ s
  unfolding handle_resume
  resume_ignored now by s e = rw e

  resumes_ignored :
      (c : Config F) (rs : List (ℕ × Option String)) (s : Psa F)
      → same_system s.system_state halted ≡ false
      → run F c (resume_commands rs) s ≡ s
  unfolding run step process
  resumes_ignored c [] s e = refl
  resumes_ignored c ((now, by) ∷ rest) s e =
      let one : process F c now (system_state_message true by) s ≡ s =
        if_both (λ t. t ≡ s) (text_truthy by) (resume_ignored now _ s e) refl in
      ap (run F c (resume_commands rest)) one ∙ resumes_ignored c rest s e

  -- A broker mismatch that reaches a supervisor that is not halted blocks trading at all later
  -- times and does not halt it, so that no number of resume commands, by anyone, changes anything.
  pub mismatch_holds :
      (c : Config F) (now : ℕ) (text : String) (s : Psa F) (rs : List (ℕ × Option String))
      → same_system s.system_state halted ≡ false
      → let held = process F c now (reconciliation_status true text) s in
        (held.system_state ≡ s.system_state)
        × (run F c (resume_commands rs) held ≡ held)
        × ((later : ℕ) → is_trading_allowed F later held ≡ false)
  unfolding process handle_reconciliation handle_psa_alert is_trading_allowed
  mismatch_holds c now text s rs e =
      (refl, resumes_ignored c rs _ e, λ later. if_both (λ x. x ≡ false) _ refl refl)

  reported_twice :
      (c : Config F) (now later : ℕ) (u : Psa F)
      → let t = report_pnl F (check_limits F c now u) in
        let e = F.add u.current_equity u.daily_pnl in
        let message = daily_pnl_published u.daily_pnl e u.pdt_trades_used in
        let t' = process F c later (daily_pnl_message (some t.daily_pnl) (some (equity F t))) t in
        ((before : List (Message F)) × (t.sent ≡ before ++ message ∷ []))
        × (equity F t' ≡ F.add e u.daily_pnl)
  unfolding process report_pnl
  reported_twice c now later u =
      let v = check_limits F c now u in
      let b : books v ≡ books u = (checked c now u).0 in
      let w = record (report_pnl F v) { current_equity = equity F v } in
      let k : books (check_daily_loss_cap F c later w) ≡ books w =
        (cap-Kept c later w).same_books in
      let e' : equity F v ≡ F.add u.current_equity u.daily_pnl = ap (λ x. F.add (x.2) (x.1)) b in
      (
        (v.sent, ap (λ x. v.sent ++ daily_pnl_published x.1 (F.add (x.2) (x.1)) (x.3) ∷ []) b),
        ap (λ x. F.add (x.2) (x.1)) k ∙ ap (λ x. F.add (F.add (x.2) (x.1)) (x.1)) b,
      )

  -- The supervisor listens to the DAILY_PNL that it publishes after a closed trade: reading it back
  -- adds the day's result to its equity a second time, whatever the trade and the limits.
  pub result_counts_twice :
      (c : Config F) (now later : ℕ) (pnl : F.Float) (s : Psa F)
      → let t = handle_trade_closed F c now (some pnl) s in
        let day = F.add s.daily_pnl pnl in
        let e = F.add s.current_equity day in
        let message = daily_pnl_published day e (suc s.pdt_trades_used) in
        let t' = process F c later (daily_pnl_message (some t.daily_pnl) (some (equity F t))) t in
        ((before : List (Message F)) × (t.sent ≡ before ++ message ∷ []))
        × (equity F t' ≡ F.add e day)
  unfolding handle_trade_closed book_trade
  result_counts_twice c now later pnl s = elim (Bool-cases (F.float_ltb (F.float_of 0) pnl)) [
    | inl won ↦ rw won (reported_twice c now later _)
    | inr lost ↦ rw lost (reported_twice c now later _)
  ]
