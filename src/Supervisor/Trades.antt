-- ===== src/Supervisor/Trades.antt =====
-- class PortfolioSupervisorAgent: `process`, the closed trades and the three limits they are
-- checked against, and the messages outside `process`.
use nexus_trading.Base.{
  push_bounded, Floats, ℕ, suc, ◌+◌, ◌-◌, ◌&&◌, Bool, not, Option, none, some, List, [], ◌∷◌,
  String, leb, length, if◌then◌else◌, text_truthy,
}
use nexus_trading.Supervisor.State.{
  Config, Psa, daily_pnl_published, kill_switch, daily_loss_cap, account_below_pdt, pdt_limit,
  Alert, reconciliation_mismatch, other_alert,
}
use nexus_trading.Supervisor.Control.{publish, halt, pause, handle_resume, handle_psa_alert}

abbrev pub or_default {ℓ} : {A : Type ℓ} → Option A → A → A
or_default none d = d
or_default (some a) d = a

-- `[t for t in times if t >= now - window]`
abbrev pub recent : ℕ → ℕ → List ℕ → List ℕ
recent now window [] = []
recent now window (t ∷ ts) =
    if leb now (t + window) then t ∷ recent now window ts else recent now window ts

module _ (F : Floats) where
  -- `sum(-loss for ts, loss in losses if ts >= now - window and loss < 0)`, from a first summand
  abbrev pub sum_losses : ℕ → ℕ → F.Float → List (ℕ × F.Float) → F.Float
  sum_losses now window total [] = total
  sum_losses now window total ((t, loss) ∷ rest) =
      if leb now (t + window) && F.float_ltb loss (F.float_of 0)
      then sum_losses now window (F.add total (F.neg loss)) rest
      else sum_losses now window total rest

  abbrev pub max_loss : Config F → Psa F → F.Float
  max_loss c s = F.mul s.current_equity c.daily_max_loss_pct

  abbrev pub loss_cap_text : Config F → Psa F → String
  loss_cap_text c s =
      F.format "Daily loss cap reached: P/L=${:.2f} exceeds -${:.2f} ({:.0f}% of equity)" []
        (s.daily_pnl ∷ max_loss c s ∷ F.mul c.daily_max_loss_pct (F.float_of 100) ∷ []) []

  -- `_check_daily_loss_cap`
  unfoldable pub check_daily_loss_cap : Config F → ℕ → Psa F → Psa F
  check_daily_loss_cap c now s =
      if F.float_leb s.daily_pnl (F.neg (max_loss c s))
      then halt F now (loss_cap_text c s) daily_loss_cap s
      else s

  abbrev pub recent_stopouts : Config F → ℕ → Psa F → List ℕ
  recent_stopouts c now s = recent now c.circuit_breaker_window_sec s.stopout_times

  abbrev pub recent_losses : Config F → ℕ → Psa F → F.Float
  recent_losses c now s =
      sum_losses now c.drawdown_velocity_window_sec (F.float_of 0) s.loss_velocity_window

  abbrev pub check_stopouts : Config F → ℕ → Psa F → Psa F
  check_stopouts c now s =
      let n = length (recent_stopouts c now s) in
      if leb c.circuit_breaker_stopouts n
      then pause F now
          (F.format "Circuit breaker: {} stopouts in {}s — systemic event" [] []
            (n ∷ c.circuit_breaker_window_sec ∷ []))
          c.circuit_breaker_pause_sec s
      else s

  abbrev pub check_velocity : Config F → ℕ → Psa F → Psa F
  check_velocity c now s =
      if F.float_leb c.drawdown_velocity_loss (recent_losses c now s)
      then pause F now
          (F.format "Drawdown velocity: lost ${:.2f} in {}s" [] (recent_losses c now s ∷ [])
            (c.drawdown_velocity_window_sec ∷ []))
          300 s
      else s

  -- `_check_circuit_breaker`
  unfoldable pub check_circuit_breaker : Config F → ℕ → Psa F → Psa F
  check_circuit_breaker c now s = check_velocity c now (check_stopouts c now s)

  abbrev pub equity : Psa F → F.Float
  equity s = F.add s.current_equity s.daily_pnl

  -- The first `if` of `_check_pdt_limit`.
  abbrev pub check_equity : Config F → ℕ → F.Float → Psa F → Psa F
  check_equity c now e s =
      if F.float_ltb e c.pdt_minimum
      then halt F now
          (F.format "Account equity ${:.2f} below PDT minimum ${:.2f}" [] (e ∷ c.pdt_minimum ∷ [])
            [])
          account_below_pdt s
      else s

  abbrev pub check_day_trades : Config F → ℕ → F.Float → Psa F → Psa F
  check_day_trades c now e s =
      if leb 3 s.pdt_trades_used && F.float_ltb e c.pdt_minimum
      then halt F now "PDT day trade limit reached on sub-$25k account" pdt_limit s
      else s

  -- `_check_pdt_limit`
  unfoldable pub check_pdt_limit : Config F → ℕ → Psa F → Psa F
  check_pdt_limit c now s = let e = equity s in check_day_trades c now e (check_equity c now e s)

  -- The assignments of `_handle_trade_closed`; `not trade.is_winner` is `not net_pnl > 0`.
  unfoldable pub book_trade : ℕ → F.Float → Psa F → Psa F
  book_trade now net_pnl s =
      let booked = record s {
        open_position_count = s.open_position_count - 1;
        daily_pnl = F.add s.daily_pnl net_pnl;
        pdt_trades_used = suc s.pdt_trades_used;
      } in
      if not (F.float_ltb (F.float_of 0) net_pnl)
      then record booked {
        consecutive_losses = suc s.consecutive_losses;
        stopout_times = push_bounded 20 s.stopout_times now;
        loss_velocity_window = push_bounded 100 s.loss_velocity_window (now, net_pnl);
      }
      else record booked { consecutive_losses = 0 }

  unfoldable pub check_limits : Config F → ℕ → Psa F → Psa F
  check_limits c now s =
      check_pdt_limit c now (check_circuit_breaker c now (check_daily_loss_cap c now s))

  -- The DAILY_PNL message and the row of the store at the end of `_handle_trade_closed`.
  unfoldable pub report_pnl : Psa F → Psa F
  report_pnl s =
      publish F (daily_pnl_published s.daily_pnl (equity s) s.pdt_trades_used)
        (record s { stored_pnl = some (equity s, s.daily_pnl, s.pdt_trades_used) })

  -- `_handle_trade_closed`, given the net P/L of the trade, or none when it does not validate.
  unfoldable pub handle_trade_closed : Config F → ℕ → Option F.Float → Psa F → Psa F
  handle_trade_closed c now none s = s
  handle_trade_closed c now (some net_pnl) s =
      report_pnl (check_limits c now (book_trade now net_pnl s))

  -- `_handle_reconciliation`: whether the status is "mismatch", and the text of the discrepancies.
  unfoldable pub handle_reconciliation : ℕ → Bool → String → Psa F → Psa F
  handle_reconciliation now mismatch discrepancies s =
      if mismatch
      then handle_psa_alert F now reconciliation_mismatch
          (F.format "Broker mismatch: {}" (discrepancies ∷ []) [] []) s
      else s

  -- `_on_kill_switch`: the entries "reason" and "initiated_by" of the payload.
  unfoldable pub on_kill_switch : ℕ → Option String → Option String → Psa F → Psa F
  on_kill_switch now reason by s =
      halt F now
        (F.format "Kill switch: {} (by {})"
          (or_default reason "kill_switch_triggered" ∷ or_default by "unknown" ∷ []) [] [])
        kill_switch s

  -- The messages that `process` is given; a payload's entry that may be missing is an option.
  pub data Incoming : Type 0 where
    trade_closed : Option F.Float → Incoming
    psa_alert : Option Alert → Option String → Incoming
    reconciliation_status : Bool → String → Incoming
    fill_event : Incoming
    daily_pnl_message : Option F.Float → Option F.Float → Incoming
    -- whether "command" is "resume", and "approved_by"
    system_state_message : Bool → Option String → Incoming
    other_topic : Incoming

  -- `process`
  unfoldable pub process : Config F → ℕ → Incoming → Psa F → Psa F
  process c now (trade_closed trade) s = handle_trade_closed c now trade s
  process c now (psa_alert alert reason) s =
      handle_psa_alert F now (or_default alert (other_alert "unknown"))
        (or_default reason "unspecified") s
  process c now (reconciliation_status mismatch discrepancies) s =
      handle_reconciliation now mismatch discrepancies s
  process c now fill_event s = record s { open_position_count = suc s.open_position_count }
  process c now (daily_pnl_message pnl account) s = check_daily_loss_cap c now (record s {
    daily_pnl = or_default pnl s.daily_pnl;
    current_equity = or_default account s.current_equity;
  })
  process c now (system_state_message resume by) s =
      if resume && text_truthy by then handle_resume F now (or_default by "unknown") s else s
  process c now other_topic s = s
