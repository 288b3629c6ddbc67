-- ===== src/Trading/Runs.antt =====
-- Sequences of ticks: what a halt and the end of a session survive.
use nexus_trading.Base.{◌<◌, ◌≤◌, ◌≡◌, ◌∙◌, true, List, [], ◌∷◌, arith}
use nexus_trading.Trading.Machine.{
  SystemState, initializing, trading, halted, post_session, shutdown, Machine, Time, tick,
  is_trading, market_open, market_close,
}
use nexus_trading.Trading.Clock.{tick_table, window_of, next_state}

unfoldable pub ticks : List Time → Machine → Machine
ticks [] m = m
ticks (t ∷ ts) m = ticks ts (tick t m)

abbrev pub OnWeekdays : List Time → Type 0
OnWeekdays [] = Unit {0}
OnWeekdays (t ∷ ts) = (t.weekday < 5) × OnWeekdays ts

-- The states that no tick of a weekday leaves.
abbrev pub Resting : SystemState → Type 0
Resting halted = Unit {0}
Resting post_session = Unit {0}
Resting shutdown = Unit {0}
Resting _ = ⊥

Resting-tick :
    (s : SystemState) (t : Time) → Resting s → t.weekday < 5 → next_state (window_of t) s ≡ s
Resting-tick halted t r h = ground arith
Resting-tick post_session t r h = ground arith
Resting-tick shutdown t r h = ground arith
Resting-tick _ t r h = absurd r

-- Ticks of weekdays alone, however many, leave a machine that is halted, shut down, or past the
-- session in that state; so a new session does not start before a weekend has passed.
pub weekdays_rest :
    (ts : List Time) (s : SystemState) (m : Machine)
    → OnWeekdays ts
    → Resting s
    → m.state ≡ s
    → (ticks ts m).state ≡ s
unfolding ticks
weekdays_rest [] s m w r e = e
weekdays_rest (t ∷ ts) s m w r e =
    weekdays_rest ts s (tick t m) w.1 r ((tick_table t m).0 ∙ (rw e (Resting-tick s t r w.0)))

to_initializing : (t : Time) → 5 ≤ t.weekday → next_state (window_of t) halted ≡ initializing
to_initializing t h = ground arith

to_trading :
    (u : Time)
    → u.weekday < 5
    → market_open ≤ u.seconds
    → u.seconds < market_close
    → next_state (window_of u) initializing ≡ trading
to_trading u weekday opened closed = ground arith

-- A halt does not outlast the weekend: a tick on a weekend day and one in the market hours of a
-- weekday put a halted machine back to trading, with no call of `resume` and with the halt reason
-- still set.
pub halt_forgotten :
    (t u : Time) (m : Machine)
    → m.state ≡ halted
    → 5 ≤ t.weekday
    → u.weekday < 5
    → market_open ≤ u.seconds
    → u.seconds < market_close
    → let m' = ticks (t ∷ u ∷ []) m in (is_trading m' ≡ true) × (m'.halt_reason ≡ m.halt_reason)
unfolding ticks is_trading
halt_forgotten t u m e weekend weekday opened closed =
    let a = tick_table t m in
    let b = tick_table u (tick t m) in
    let reset : (tick t m).state ≡ initializing = a.0 ∙ rw e (to_initializing t weekend) in
    (rw (b.0, reset, to_trading u weekday opened closed), b.1 ∙ a.1)
