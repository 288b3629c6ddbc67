-- ===== src/Trading/Machine.antt =====
-- class TradingSessionStateMachine: its fields, _transition, the commands and the wall-clock tick.
use nexus_trading.Base.{
  ℕ, Bool, false, not, ◌&&◌, ◌||◌, Option, none, some, List, [], ◌∷◌, ◌++◌, String, ltb, leb, ◌==◌,
  if◌then◌else◌,
}

pub data SystemState : Type 0 where
  initializing shadow_mode pre_session session_open trading paused halted post_session : SystemState
  shutdown : SystemState

abbrev pub value : SystemState → ℕ
value initializing = 0
value shadow_mode = 1
value pre_session = 2
value session_open = 3
value trading = 4
value paused = 5
value halted = 6
value post_session = 7
value shutdown = 8

abbrev pub same_state : SystemState → SystemState → Bool
same_state a b = value a == value b

abbrev pub is_one_of : SystemState → List SystemState → Bool
is_one_of a [] = false
is_one_of a (b ∷ bs) = same_state a b || is_one_of a bs

pub data Reason : Type 0 where
  weekend pre_market market_opened session_ready market_closed forced operator_shutdown : Reason
  given : String → Reason
  resumed_by : String → Reason

-- A call of a registered callback, by the place of the callback.
pub record Notice : Type 0 where
  pub callback : ℕ
  pub old : SystemState
  pub new : SystemState
  pub reason : Reason

pub record Machine : Type 0 where
  pub state : SystemState
  pub state_entered_at : ℕ
  pub halt_reason : Option String
  pub callbacks : List ℕ
  -- what the callbacks have been called with; an exception of theirs is only logged
  pub notices : List Notice

unfoldable pub init : ℕ → Machine
init now = record {
  state = initializing;
  state_entered_at = now;
  halt_reason = none;
  callbacks = [];
  notices = [];
}

unfoldable pub register_callback : ℕ → Machine → Machine
register_callback callback m = record m { callbacks = m.callbacks ++ callback ∷ [] }

abbrev pub notify : List ℕ → SystemState → SystemState → Reason → List Notice
notify [] old new reason = []
notify (c ∷ cs) old new reason =
    record { callback = c; old = old; new = new; reason = reason } ∷ notify cs old new reason

unfoldable pub transition : ℕ → SystemState → Reason → Machine → Machine
transition now new reason m = if same_state new m.state then m else record m {
  state = new;
  state_entered_at = now;
  notices = m.notices ++ notify m.callbacks m.state new reason;
}

-- Seconds since midnight in New York.
abbrev pub pre_session_start : ℕ
pre_session_start = 32400

abbrev pub market_open : ℕ
market_open = 34200

abbrev pub market_close : ℕ
market_close = 57600

abbrev pub post_session_start : ℕ
post_session_start = 57900

-- The time of a tick: the clock, the weekday (0 is Monday), the seconds since midnight.
pub record Time : Type 0 where
  pub now : ℕ
  pub weekday : ℕ
  pub seconds : ℕ

abbrev pub open_market : Time → Machine → Machine
open_market t m =
    let opened =
      if is_one_of m.state (pre_session ∷ initializing ∷ [])
      then transition t.now session_open market_opened m
      else m in
    if same_state opened.state session_open
    then transition t.now trading session_ready opened
    else opened

unfoldable pub tick : Time → Machine → Machine
unfolding transition
tick t m =
    if leb 5 t.weekday
    then (if not (is_one_of m.state (shutdown ∷ initializing ∷ []))
        then transition t.now initializing weekend m
        else m)
    else if leb pre_session_start t.seconds && ltb t.seconds market_open
    then (if same_state m.state initializing then transition t.now pre_session pre_market m else m)
    else if leb market_open t.seconds && ltb t.seconds market_close
    then open_market t m
    else if leb post_session_start t.seconds
    then (if is_one_of m.state (trading ∷ paused ∷ session_open ∷ [])
        then transition t.now post_session market_closed m
        else m)
    else m

unfoldable pub halt : ℕ → String → Machine → Machine
unfolding transition
halt now reason m = transition now halted (given reason) (record m { halt_reason = some reason })

unfoldable pub pause : ℕ → String → Machine → Machine
unfolding transition
pause now reason m =
    if same_state m.state trading then transition now paused (given reason) m else m

unfoldable pub resume : ℕ → String → Machine → Machine
unfolding transition
resume now approved_by m =
    if is_one_of m.state (halted ∷ paused ∷ [])
    then transition now trading (resumed_by approved_by) (record m { halt_reason = none })
    else m

unfoldable pub enter_post_session : ℕ → Machine → Machine
unfolding transition
enter_post_session now = transition now post_session forced

unfoldable pub shut_down : ℕ → Machine → Machine
unfolding transition
shut_down now = transition now shutdown operator_shutdown

unfoldable pub is_trading : Machine → Bool
is_trading m = same_state m.state trading

unfoldable pub is_market_hours : Time → Bool
is_market_hours t = ltb t.weekday 5 && (leb market_open t.seconds && ltb t.seconds market_close)
