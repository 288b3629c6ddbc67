-- ===== src/Supervisor/Tests.antt =====
-- Concrete runs of the supervisor, in whole numbers.
use nexus_trading.Base.{
  Floats, ℕ, ◌+◌, ◌*◌, ◌/◌, ◌==◌, if◌then◌else◌, ◌≡◌, refl, true, false, not, Option, none, some,
  List, [], ◌∷◌, ◌++◌, ℤ, pos, negsuc, pos_part, neg_part, sub_ℕ, ltb_ℤ, ltb, arith,
}
use nexus_trading.Session.States.{active, waiting_for_regime}
use nexus_trading.Session.Machine.{is_trading_permitted, transition_to, init, given}
use nexus_trading.Session.Runs
use nexus_trading.Session.Runs.{clears, readies}
use nexus_trading.Supervisor.State.{
  Config, Psa, Message, daily_pnl_published, initializing, trading, kill_switch, new_psa,
  on_fsm_transition,
}
use nexus_trading.Supervisor.Control.{
  on_startup, on_session_start, halt, pause, handle_resume, is_trading_allowed,
}
use nexus_trading.Supervisor.Trades.{
  process, handle_trade_closed, trade_closed, reconciliation_status, daily_pnl_message,
  system_state_message, equity, loss_cap_text, check_pdt_limit, check_equity,
}
use nexus_trading.Supervisor.Runs.{receives, session_starts, session_call, kill_switched, run}
use nexus_trading.Supervisor.Halted.{Halted, no_trading_until_resumed}
use nexus_trading.Supervisor.Limits.{halt-Halted, loss_cap_halts, day_trade_limit_is_dead}
use nexus_trading.Supervisor.Stopouts.{is_stopped, three_stopouts_stop}
use nexus_trading.Supervisor.Holds.{mismatch_holds, resume_commands, result_counts_twice}
use nexus_trading.Supervisor.Pauses.{resume_waits_for_pause}

abbrev neg_int : ℤ → ℤ
neg_int a = sub_ℕ (neg_part a) (pos_part a)

abbrev mul_int : ℤ → ℤ → ℤ
mul_int a b =
    sub_ℕ (pos_part a * pos_part b + neg_part a * neg_part b)
      (pos_part a * neg_part b + neg_part a * pos_part b)

-- Rounded to zero.
abbrev pub div_int : ℤ → ℤ → Option ℤ
div_int a b =
    let n = pos_part b + neg_part b in
    if n == 0
    then none
    else some (sub_ℕ (pos_part (mul_int a b) / (n * n)) (neg_part (mul_int a b) / (n * n)))

-- Whole cents in place of floats; a formatted text is its template.
abbrev pub cents : Floats
cents = record {
  Float = ℤ;
  add = λ a b. sub_ℕ (pos_part a + pos_part b) (neg_part a + neg_part b);
  sub = λ a b. sub_ℕ (pos_part a + neg_part b) (neg_part a + pos_part b);
  neg = neg_int;
  mul = mul_int;
  div = div_int;
  float_abs = λ a. pos (pos_part a + neg_part a);
  float_of = pos;
  truncate = λ a. some (pos_part a);
  float_leb = λ a b. not (ltb_ℤ b a);
  float_ltb = ltb_ℤ;
  format = λ template texts floats numbers. template;
}

-- A loss cap of twice the equity of 500, and no minimum equity to speak of.
abbrev pub config : Config cents
config = record {
  starting_equity = pos 500;
  daily_max_loss_pct = pos 2;
  circuit_breaker_window_sec = 60;
  circuit_breaker_stopouts = 3;
  circuit_breaker_pause_sec = 600;
  drawdown_velocity_window_sec = 180;
  drawdown_velocity_loss = pos 300000;
  pdt_minimum = negsuc 100000;
}

-- Started, with its session machine brought to trading.
abbrev started : Psa cents
unfolding new_psa on_startup run
started =
    run cents config (session_call (clears 1) ∷ session_starts 2 ∷ [])
      (on_startup cents config 0 (initializing, none, false) (some (pos 500)) (new_psa cents 0))

started_allows : is_trading_allowed cents 3 started ≡ true
unfolding is_trading_allowed is_trading_permitted started on_session_start Runs.step transition_to
    init
started_allows = refl

-- Trading, in the middle of a day.
abbrev pub ready : Psa cents
ready = record {
  daily_pnl = pos 0;
  starting_equity = pos 500;
  current_equity = pos 500;
  system_state = trading;
  halt_reason = none;
  anomaly_hold = false;
  pause_until = none;
  session = record {
    machine = record {
      state = active;
      previous_state = waiting_for_regime;
      reason = given "Regime assessment complete — trading active";
      entered_at = 2;
      on_transition = some on_fsm_transition;
      pending_approval_by = none;
      history = [];
    };
    tasks = [];
  };
  stopout_times = [];
  loss_velocity_window = [];
  open_position_count = 1;
  consecutive_losses = 0;
  pdt_trades_used = 0;
  naps = [];
  stored = none;
  stored_pnl = none;
  sent = [];
  audited = [];
}

-- A halt, then a closed trade, a kill switch and a resume command without an approver.
no_trading_until_resumed_example :
    let later =
      receives 11 (trade_closed (some (pos 5)))
      ∷ kill_switched 12 none none
      ∷ receives 13 (system_state_message true none)
      ∷ [] in
    let s = halt cents 10 "stop" kill_switch ready in
    Halted cents "stop" (run cents config later s)
    × (is_trading_allowed cents 99 (run cents config later s) ≡ false)
no_trading_until_resumed_example =
    no_trading_until_resumed config
      (receives 11 (trade_closed (some (pos 5)))
        ∷ kill_switched 12 none none
        ∷ receives 13 (system_state_message true none)
        ∷ [])
      (halt cents 10 "stop" kill_switch ready) 99 refl
      (halt-Halted 10 "stop" kill_switch ready refl)

loss_cap_halts_example :
    let booked = record ready { daily_pnl = negsuc 1199 } in
    Halted cents
      (loss_cap_text cents config booked)
      (handle_trade_closed cents config 20 (some (negsuc 1199)) ready)
loss_cap_halts_example = loss_cap_halts config 20 (negsuc 1199) ready refl refl

day_trade_limit_is_dead_case :
    check_pdt_limit cents config 7 ready ≡ check_equity cents config 7 (pos 500) ready
day_trade_limit_is_dead_case = day_trade_limit_is_dead config 7 ready

three_stopouts_stop_example :
    let three =
      receives 100 (trade_closed (some (negsuc 4)))
      ∷ receives 130 (trade_closed (some (pos 0)))
      ∷ receives 160 (trade_closed (some (negsuc 9)))
      ∷ [] in
    is_stopped (run cents config three ready) ≡ true
three_stopouts_stop_example =
    three_stopouts_stop config 100 130 160 (negsuc 4) (pos 0) (negsuc 9) ready (omega arith)
      (omega arith) (omega arith) (omega arith) refl refl refl

mismatch_holds_example :
    let held = process cents config 9 (reconciliation_status true "2 shares") ready in
    (held.system_state ≡ trading)
    × (run cents config (resume_commands ((10, some "ann") ∷ (20, some "bob") ∷ [])) held ≡ held)
    × ((later : ℕ) → is_trading_allowed cents later held ≡ false)
mismatch_holds_example =
    mismatch_holds config 9 "2 shares" ready ((10, some "ann") ∷ (20, some "bob") ∷ []) refl

result_counts_twice_case :
    let t = handle_trade_closed cents config 9 (some (pos 30)) ready in
    let message = daily_pnl_published (pos 30) (pos 530) 1 in
    let t' =
      process cents config 10 (daily_pnl_message (some t.daily_pnl) (some (equity cents t))) t in
    ((before : List (Message cents)) × (t.sent ≡ before ++ message ∷ []))
    × (equity cents t' ≡ pos 560)
result_counts_twice_case = result_counts_twice config 9 10 (pos 30) ready

resume_waits_for_pause_example :
    let resumed =
      handle_resume cents 60 "ann"
        (halt cents 50 "stop" kill_switch (pause cents 40 "losses" 600 ready)) in
    (resumed.system_state ≡ trading)
    × (is_trading_permitted resumed.session.machine ≡ true)
    × ((later : ℕ) → is_trading_allowed cents later resumed ≡ not (ltb later 640))
resume_waits_for_pause_example =
    resume_waits_for_pause 40 50 60 600 "losses" "stop" "ann" ready refl refl refl
