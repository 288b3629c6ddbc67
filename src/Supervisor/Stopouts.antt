-- ===== src/Supervisor/Stopouts.antt =====
-- The circuit breaker of the supervisor: three losing trades in its window.
use nexus_trading.Base.{
  push_bounded, Floats, ℕ, ◌+◌, ◌≡◌, ◌≤◌, refl, subst, sym, ap, ◌∙◌, inl, inr, Bool, true, false,
  ◌||◌, some, List, [], ◌∷◌, String, leb, length, if_both, Bool-cases, le→leb, arith, Result, ok,
  err,
}
use mathlib.Core.List.{append-nil}
use nexus_trading.Supervisor.Recent.{EndsIn, push_bounded-EndsIn, length-recent}
use nexus_trading.Session.Machine.{World, Error, given, pause_cooldown}
use nexus_trading.Supervisor.State.{Config, Psa, SystemState, halted, paused, same_system, Breach}
use nexus_trading.Supervisor.Runs.{receives, run, step}
use nexus_trading.Supervisor.Control.{halt, pause, after_fsm, fsm_halt}
use nexus_trading.Supervisor.Trades.{
  check_daily_loss_cap, check_circuit_breaker, check_stopouts, check_velocity, check_equity,
  check_day_trades, check_pdt_limit, check_limits, book_trade, report_pnl, handle_trade_closed,
  recent, equity, process, trade_closed,
}

abbrev pub stopped_state : SystemState → Bool
stopped_state x = same_system x halted || same_system x paused

-- Neither halted nor paused means that the system may trade.
abbrev pub is_stopped : {F : Floats} → Psa F → Bool
is_stopped s = stopped_state s.system_state

-- `not trade.is_winner`
abbrev pub IsLoss : (F : Floats) → F.Float → Type 0
IsLoss F pnl = F.float_ltb (F.float_of 0) pnl ≡ false

-- The entries that only a trade changes: the stopouts, the day's result, the equity and the count.
abbrev pub books : {F : Floats} → Psa F → List ℕ × F.Float × F.Float × ℕ
books s = (s.stopout_times, s.daily_pnl, s.current_equity, s.pdt_trades_used)

module _ {F : Floats} where
  after_fsm-kept :
      (r : Result Error Bool) (w : World) (s : Psa F)
      → ((after_fsm F r w s).system_state ≡ s.system_state) × (books (after_fsm F r w s) ≡ books s)
  after_fsm-kept (ok true) w s = (refl, refl)
  after_fsm-kept (ok false) w s = (refl, refl)
  after_fsm-kept (err e) w s = (refl, refl)

  halt-kept :
      (now : ℕ) (r : String) (b : Breach) (s : Psa F)
      → (is_stopped (halt F now r b s) ≡ true) × (books (halt F now r b s) ≡ books s)
  unfolding halt
  halt-kept now r b s = elim (Bool-cases (same_system s.system_state halted)) [
    | inl e ↦ rw (e, e) (refl, refl)
    | inr e ↦
        let (call, m) = fsm_halt F b now (given r) s.session.machine in
        let stopped = record s {
          system_state = halted;
          halt_reason = some r;
          anomaly_hold = true;
        } in
        let d = after_fsm-kept call (record s.session { machine = m }) stopped in
        rw e (ap stopped_state d.0, d.1)
  ]

  pause-kept :
      (now : ℕ) (r : String) (d : ℕ) (s : Psa F)
      → (is_stopped (pause F now r d s) ≡ true) × (books (pause F now r d s) ≡ books s)
  unfolding pause
  pause-kept now r d s = elim (Bool-cases (is_stopped s)) [
    | inl e ↦ rw (e, e) (refl, refl)
    | inr e ↦
        let (call, w) = pause_cooldown now (given r) d s.session in
        let stopped = record s { system_state = paused; pause_until = some (now + d) } in
        let d = after_fsm-kept call w stopped in rw e (ap stopped_state d.0, d.1)
  ]

  -- What the checks do to what matters here: they never start the system again.
  pub record Kept (s t : Psa F) : Type 0 where
    pub stops : is_stopped s ≡ true → is_stopped t ≡ true
    pub same_books : books t ≡ books s

  Kept-same : (s : Psa F) → Kept s s
  Kept-same s = record { stops = λ e. e; same_books = refl }

  Kept-twice : {s t u : Psa F} → Kept s t → Kept t u → Kept s u
  Kept-twice k l = record {
    stops = λ e. l.stops (k.stops e);
    same_books = l.same_books ∙ k.same_books;
  }

  halt-Kept : (now : ℕ) (r : String) (b : Breach) (s : Psa F) → Kept s (halt F now r b s)
  halt-Kept now r b s = let k = halt-kept now r b s in record { stops = λ e. k.0; same_books = k.1 }

  pause-Kept : (now : ℕ) (r : String) (d : ℕ) (s : Psa F) → Kept s (pause F now r d s)
  pause-Kept now r d s =
      let k = pause-kept now r d s in record { stops = λ e. k.0; same_books = k.1 }

  pub cap-Kept : (c : Config F) (now : ℕ) (s : Psa F) → Kept s (check_daily_loss_cap F c now s)
  unfolding check_daily_loss_cap
  cap-Kept c now s = if_both (Kept s) _ (halt-Kept now _ _ s) (Kept-same s)

  stopouts-Kept : (c : Config F) (now : ℕ) (s : Psa F) → Kept s (check_stopouts F c now s)
  stopouts-Kept c now s = if_both (Kept s) _ (pause-Kept now _ _ s) (Kept-same s)

  velocity-Kept : (c : Config F) (now : ℕ) (s : Psa F) → Kept s (check_velocity F c now s)
  velocity-Kept c now s = if_both (Kept s) _ (pause-Kept now _ _ s) (Kept-same s)

  pdt-Kept : (c : Config F) (now : ℕ) (s : Psa F) → Kept s (check_pdt_limit F c now s)
  unfolding check_pdt_limit
  pdt-Kept c now s =
      let e = equity F s in
      let low : (u : Psa F) → Kept u (check_equity F c now e u) =
        λ u. if_both (Kept u) _ (halt-Kept now _ _ u) (Kept-same u) in
      let day : (u : Psa F) → Kept u (check_day_trades F c now e u) =
        λ u. if_both (Kept u) _ (halt-Kept now _ _ u) (Kept-same u) in
      Kept-twice (low s) (day (check_equity F c now e s))

  -- Enough of the times are recent.
  abbrev Many : Config F → ℕ → List ℕ → Type 0
  Many c now times =
      leb c.circuit_breaker_stopouts (length (recent now c.circuit_breaker_window_sec times)) ≡ true

  Many-stop :
      (c : Config F) (now : ℕ) (s : Psa F)
      → Many c now s.stopout_times
      → is_stopped (check_stopouts F c now s) ≡ true
  Many-stop c now s many = rw many ((pause-kept now _ _ s).0)

  -- The checks and the report of a trade, and the stop where enough stopouts are recent.
  pub checked :
      (c : Config F) (now : ℕ) (s : Psa F)
      → let t = report_pnl F (check_limits F c now s) in
        (books t ≡ books s) × (Many c now s.stopout_times → is_stopped t ≡ true)
  unfolding report_pnl check_limits check_circuit_breaker
  checked c now s =
      let capped = check_daily_loss_cap F c now s in
      let k1 = cap-Kept c now s in
      let k2 = stopouts-Kept c now capped in
      let later =
        Kept-twice (velocity-Kept c now (check_stopouts F c now capped)) (pdt-Kept c now _) in
      (
        later.same_books ∙ k2.same_books ∙ k1.same_books,
        λ many. later.stops (
            Many-stop c now capped
              (subst (λ ts. Many c now ts) (sym (ap (λ b. b.0) k1.same_books)) many)),
      )

  -- A losing trade is recorded, and stops the system when enough of the last ones are recent.
  losing_trade :
      (c : Config F) (now : ℕ) (pnl : F.Float) (s : Psa F)
      → IsLoss F pnl
      → let t = handle_trade_closed F c now (some pnl) s in
        let times = push_bounded 20 s.stopout_times now in
        (t.stopout_times ≡ times) × (Many c now times → is_stopped t ≡ true)
  unfolding handle_trade_closed book_trade
  losing_trade c now pnl s lost = rw lost (let k = checked c now _ in (ap (λ b. b.0) k.0, k.1))

  three_are-Many :
      (c : Config F) (t1 t2 t3 : ℕ) (times : List ℕ)
      → EndsIn times (t1 ∷ t2 ∷ t3 ∷ [])
      → c.circuit_breaker_stopouts ≤ 3
      → t1 ≤ t2
      → t2 ≤ t3
      → t3 ≤ t1 + c.circuit_breaker_window_sec
      → Many c t3 times
  three_are-Many c t1 t2 t3 times e n h12 h23 h31 =
      let w = c.circuit_breaker_window_sec in
      let all : length (recent t3 w (t1 ∷ t2 ∷ t3 ∷ [])) ≡ 3 = ground arith in
      let count = length-recent t3 w e.before (t1 ∷ t2 ∷ t3 ∷ []) in
      rw e.split (le→leb _ _ (omega (arith, n, all, count)))

  -- Three losing trades within the window of the circuit breaker, when three suffice for it, leave
  -- the supervisor paused or halted, whatever it was before and whatever the losses.
  pub three_stopouts_stop :
      (c : Config F) (t1 t2 t3 : ℕ) (p1 p2 p3 : F.Float) (s : Psa F)
      → c.circuit_breaker_stopouts ≤ 3
      → t1 ≤ t2
      → t2 ≤ t3
      → t3 ≤ t1 + c.circuit_breaker_window_sec
      → IsLoss F p1
      → IsLoss F p2
      → IsLoss F p3
      → let three =
          receives t1 (trade_closed (some p1))
          ∷ receives t2 (trade_closed (some p2))
          ∷ receives t3 (trade_closed (some p3))
          ∷ [] in
        is_stopped (run F c three s) ≡ true
  unfolding run step process
  three_stopouts_stop c t1 t2 t3 p1 p2 p3 s n h12 h23 h31 l1 l2 l3 =
      let w = c.circuit_breaker_window_sec in
      let s1 = handle_trade_closed F c t1 (some p1) s in
      let s2 = handle_trade_closed F c t2 (some p2) s1 in
      let e1 : EndsIn s1.stopout_times (t1 ∷ []) =
        subst (λ ts. EndsIn ts (t1 ∷ [])) (sym (losing_trade c t1 p1 s l1).0)
          (push_bounded-EndsIn 20 _ [] t1
            (record { before = s.stopout_times; split = sym (append-nil _) }) (omega arith)) in
      let e2 : EndsIn s2.stopout_times (t1 ∷ t2 ∷ []) =
        subst (λ ts. EndsIn ts (t1 ∷ t2 ∷ [])) (sym (losing_trade c t2 p2 s1 l2).0)
          (push_bounded-EndsIn 20 _ _ t2 e1 (omega arith)) in
      let e3 = push_bounded-EndsIn 20 _ _ t3 e2 (omega arith) in
      (losing_trade c t3 p3 s2 l3).1 (three_are-Many c t1 t2 t3 _ e3 n h12 h23 h31)
