-- ===== src/Trading/Tests.antt =====
-- The trading session at concrete times.
use nexus_trading.Base.{◌≡◌, refl, true, [], ◌∷◌, arith}
use nexus_trading.Trading.Machine.{
  initializing, pre_session, session_open, halted, post_session, Machine, Time, init, halt, tick,
  is_trading, is_market_hours, is_one_of,
}
use nexus_trading.Trading.Clock.{tick_table, trading_starts, window_of, next_state}
use nexus_trading.Trading.Runs.{ticks, weekdays_rest, halt_forgotten}

abbrev saturday : Time
saturday = record { now = 0; weekday = 5; seconds = 40000 }

abbrev monday : Time
monday = record { now = 200000; weekday = 0; seconds = 36000 }

abbrev monday_evening : Time
monday_evening = record { now = 220000; weekday = 0; seconds = 60000 }

abbrev tuesday : Time
tuesday = record { now = 286400; weekday = 1; seconds = 36000 }

abbrev stopped : Machine
unfolding halt init
stopped = halt 0 "drawdown" (init 0)

monday_then_tuesday : (ticks (monday ∷ monday_evening ∷ tuesday ∷ []) (init 0)).state ≡ post_session
unfolding ticks tick init
monday_then_tuesday = refl

tick_table_example : (tick monday stopped).state ≡ next_state (window_of monday) stopped.state
tick_table_example = (tick_table monday stopped).0

trading_starts_case :
    (is_market_hours monday ≡ true)
    × (is_one_of (init 0).state (initializing ∷ pre_session ∷ session_open ∷ []) ≡ true)
unfolding is_trading tick init
trading_starts_case = trading_starts monday (init 0) refl refl

weekdays_rest_case : (ticks (tuesday ∷ monday ∷ []) stopped).state ≡ halted
unfolding halt init
weekdays_rest_case = weekdays_rest (tuesday ∷ monday ∷ []) halted stopped (omega arith) tt refl

halt_forgotten_case :
    let m' = ticks (saturday ∷ monday ∷ []) stopped in
    (is_trading m' ≡ true) × (m'.halt_reason ≡ stopped.halt_reason)
unfolding halt init
halt_forgotten_case =
    halt_forgotten saturday monday stopped refl (omega arith) (omega arith) (omega arith)
      (omega arith)
