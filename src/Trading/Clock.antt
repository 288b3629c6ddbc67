-- ===== src/Trading/Clock.antt =====
-- What one tick of the wall clock may do.
use nexus_trading.Base.{
  ◌≡◌, refl, sym, ◌∙◌, true, false, ◌&&◌, [], ◌∷◌, ltb, leb, arith, if◌then◌else◌,
}
use nexus_trading.Trading.Machine.{
  SystemState, initializing, pre_session, session_open, trading, paused, post_session, shutdown,
  same_state, Machine, Time, tick, is_trading, is_market_hours, is_one_of, pre_session_start,
  market_open, market_close, post_session_start,
}

-- The state that a tick leads to, as a table: a row for each window of the week.
pub data Window : Type 0 where
  weekend_window pre_window open_window post_window quiet_window : Window

abbrev pub window_of : Time → Window
window_of t =
    if leb 5 t.weekday
    then weekend_window
    else if leb pre_session_start t.seconds && ltb t.seconds market_open
    then pre_window
    else if leb market_open t.seconds && ltb t.seconds market_close
    then open_window
    else if leb post_session_start t.seconds
    then post_window
    else quiet_window

abbrev pub next_state : Window → SystemState → SystemState
next_state weekend_window shutdown = shutdown
next_state weekend_window _ = initializing
next_state pre_window initializing = pre_session
next_state open_window initializing = trading
next_state open_window pre_session = trading
next_state open_window session_open = trading
next_state post_window trading = post_session
next_state post_window paused = post_session
next_state post_window session_open = post_session
next_state _ s = s

state-tick :
    (s : SystemState) (t : Time) (m : Machine)
    → m.state ≡ s
    → (tick t m).state ≡ next_state (window_of t) s
unfolding tick
state-tick initializing t m e = ground arith
state-tick _ t m e = ground arith

-- A tick moves the state by the table of the five windows of the week, and never touches the halt
-- reason or the registered callbacks.
pub tick_table :
    (t : Time) (m : Machine)
    → ((tick t m).state ≡ next_state (window_of t) m.state)
      × ((tick t m).halt_reason ≡ m.halt_reason)
      × ((tick t m).callbacks ≡ m.callbacks)
unfolding tick
tick_table t m = (state-tick m.state t m refl, ground arith, ground arith)

table_trading :
    (w : Window) (s : SystemState)
    → next_state w s ≡ trading
    → same_state s trading ≡ false
    → (w ≡ open_window) × (is_one_of s (initializing ∷ pre_session ∷ session_open ∷ []) ≡ true)
table_trading open_window initializing h n = (refl, refl)
table_trading open_window pre_session h n = (refl, refl)
table_trading open_window session_open h n = (refl, refl)
table_trading open_window _ h n = cc
table_trading _ initializing h n = cc
table_trading _ _ h n = cc

open-hours : (t : Time) → window_of t ≡ open_window → is_market_hours t ≡ true
unfolding is_market_hours
open-hours t h = ground arith

-- The clock starts trading only on a weekday, at or after 9:30 and before 16:00.
pub trading_starts :
    (t : Time) (m : Machine)
    → is_trading m ≡ false
    → is_trading (tick t m) ≡ true
    → (is_market_hours t ≡ true)
      × (is_one_of m.state (initializing ∷ pre_session ∷ session_open ∷ []) ≡ true)
unfolding is_trading
trading_starts t m before after =
    let reached : (tick t m).state ≡ trading = ground arith in
    let row = table_trading (window_of t) m.state (sym (tick_table t m).0 ∙ reached) before in
    (open-hours t row.0, row.1)
