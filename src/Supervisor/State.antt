-- ===== src/Supervisor/State.antt =====
-- class PortfolioSupervisorAgent: its fields, its configuration and what it sends.
use nexus_trading.Base.{ℕ, ◌==◌, Bool, false, Option, none, some, List, [], String, Floats}
use nexus_trading.Session.States.{SessionState}
use nexus_trading.Session.Machine.{World, Reason, Callback, init}

-- core/enums.py: SystemState
pub data SystemState : Type 0 where
  initializing shadow_mode pre_session session_open trading : SystemState
  paused halted post_session shut_down : SystemState

abbrev pub number : SystemState → ℕ
number initializing = 0
number shadow_mode = 1
number pre_session = 2
number session_open = 3
number trading = 4
number paused = 5
number halted = 6
number post_session = 7
number shut_down = 8

-- `a == b`
abbrev pub same_system : SystemState → SystemState → Bool
same_system a b = number a == number b

-- The texts that the code uses for `breach_type`.
pub data Breach : Type 0 where
  kill_switch daily_loss_cap account_below_pdt pdt_limit : Breach
  bus_failed reconciliation_mismatched feed_anomalous : Breach

-- The texts that the code tests `alert_type` for, and any other.
pub data Alert : Type 0 where
  feed_anomaly reconciliation_mismatch bus_failure : Alert
  other_alert : String → Alert

pub data AuditEvent : Type 0 where
  system_halt : String → AuditEvent
  risk_breach : Breach → String → AuditEvent
  system_resume : String → AuditEvent

module _ (F : Floats) where
  pub record Config : Type 0 where
    pub starting_equity : F.Float
    pub daily_max_loss_pct : F.Float
    pub circuit_breaker_window_sec : ℕ
    pub circuit_breaker_stopouts : ℕ
    pub circuit_breaker_pause_sec : ℕ
    pub drawdown_velocity_window_sec : ℕ
    pub drawdown_velocity_loss : F.Float
    pub pdt_minimum : F.Float

  -- What the agent publishes.
  pub data Message : Type 0 where
    -- SYSTEM_STATE, from `_on_fsm_transition`: to, from, reason, is_trading_permitted
    session_changed : SessionState → SessionState → Reason → Bool → Message
    -- HALT_COMMAND
    halt_command : String → SessionState → Message
    -- SYSTEM_STATE, from `_pause`: reason and resume_at
    pause_announced : String → ℕ → Message
    -- RESUME_COMMAND, at the end of a pause and after an approval
    pause_elapsed : Message
    resume_command : String → Message
    -- SYSTEM_STATE, from an alert
    anomaly_announced : Alert → String → Message
    -- DAILY_PNL: daily_pnl, account_equity, trade_count
    daily_pnl_published : F.Float → F.Float → ℕ → Message

  -- The agent, what it has stored, and what it has sent, the newest last.
  pub record Psa : Type 0 where
    pub daily_pnl : F.Float
    pub starting_equity : F.Float
    pub current_equity : F.Float
    pub system_state : SystemState
    pub halt_reason : Option String
    pub anomaly_hold : Bool
    pub pause_until : Option ℕ
    pub session : World
    pub stopout_times : List ℕ
    pub loss_velocity_window : List (ℕ × F.Float)
    pub open_position_count : ℕ
    pub consecutive_losses : ℕ
    pub pdt_trades_used : ℕ
    -- the times at which the sleeping `_auto_resume` tasks are due
    pub naps : List ℕ
    pub stored : Option (SystemState × Option String × Bool)
    pub stored_pnl : Option (F.Float × F.Float × ℕ)
    pub sent : List Message
    pub audited : List AuditEvent

-- `_on_fsm_transition`, which returns; what it publishes is appended to `sent` where it is called.
abbrev pub on_fsm_transition : Callback
on_fsm_transition from to reason = none

module _ (F : Floats) where
  -- `__init__`
  unfoldable pub new_psa : ℕ → Psa F
  new_psa now = record {
    daily_pnl = F.float_of 0;
    starting_equity = F.float_of 0;
    current_equity = F.float_of 0;
    system_state = initializing;
    halt_reason = none;
    anomaly_hold = false;
    pause_until = none;
    session = record { machine = init (some on_fsm_transition) now; tasks = [] };
    stopout_times = [];
    loss_velocity_window = [];
    open_position_count = 0;
    consecutive_losses = 0;
    pdt_trades_used = 0;
    naps = [];
    stored = none;
    stored_pnl = none;
    sent = [];
    audited = [];
  }
