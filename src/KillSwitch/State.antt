-- ===== src/KillSwitch/State.antt =====
-- The fields of KillSwitch, the events that it records, and the answers of its handlers.
use nexus_trading.Base.{
  ℕ, ◌≡◌, arith, Bool, true, false, Option, none, some, List, [], String, if◌then◌else◌, ◌==◌,
}

pub data KillSwitchState : Type 0 where
  armed triggered flattened acknowledged restarting : KillSwitchState

abbrev pub value : KillSwitchState → ℕ
value armed = 0
value triggered = 1
value flattened = 2
value acknowledged = 3
value restarting = 4

abbrev pub same_state : KillSwitchState → KillSwitchState → Bool
same_state a b = value a == value b

pub same_state→eq : (a b : KillSwitchState) → same_state a b ≡ true → a ≡ b
same_state→eq a b h = ground arith

-- The texts that `_flatten_errors` collects.
pub data FlattenError : Type 0 where
  cancel_timed_out close_timed_out : FlattenError
  cancel_error close_error : String → FlattenError

-- The audit events, by event_type, with the fields of their details that the state decides.
pub data AuditEvent : Type 0 where
  switch_triggered : ℕ → String → String → AuditEvent
  switch_flattened : Option ℕ → ℕ → ℕ → List FlattenError → AuditEvent
  switch_retry : Option ℕ → String → AuditEvent
  switch_acknowledged : Option ℕ → String → AuditEvent
  switch_restart_requested : Option ℕ → String → AuditEvent

pub data BusMessage : Type 0 where
  kill_switch : ℕ → String → String → BusMessage
  resume_command : String → Option ℕ → BusMessage

-- Where a background `_execute_flatten` task stands.
pub data Phase : Type 0 where
  cancelling closing finishing recording : Phase

pub record KillSwitch : Type 0 where
  pub state : KillSwitchState
  pub trigger_id : Option ℕ
  pub triggered_at : Option ℕ
  pub triggered_by : Option String
  pub flatten_completed_at : Option ℕ
  pub acknowledged_by : Option String
  pub restart_requested_by : Option String
  pub flatten_errors : List FlattenError
  pub positions_closed : ℕ
  pub orders_cancelled : ℕ
  pub tasks : List Phase
  pub audit : List AuditEvent
  pub bus : List BusMessage

unfoldable pub init : KillSwitch
init = record {
  state = armed;
  trigger_id = none;
  triggered_at = none;
  triggered_by = none;
  flatten_completed_at = none;
  acknowledged_by = none;
  restart_requested_by = none;
  flatten_errors = [];
  positions_closed = 0;
  orders_cancelled = 0;
  tasks = [];
  audit = [];
  bus = [];
}

-- The JSON objects that the handlers return; `raised` is an exception that leaves the handler.
pub data Reply : Type 0 where
  mfa_failed : Reply
  status_of : KillSwitch → Reply
  trigger_accepted : ℕ → KillSwitchState → Reply
  retry_not_valid restart_not_valid : KillSwitchState → Reply
  retry_accepted restart_accepted : KillSwitchState → Reply
  acknowledged_as : String → Reply
  raised : String → Reply

-- `result.get("success")`: the status object has no such key.
abbrev pub success : Reply → Option Bool
success mfa_failed = some false
success (status_of _) = none
success (trigger_accepted _ _) = some true
success (retry_not_valid _) = some false
success (restart_not_valid _) = some false
success (retry_accepted _) = some true
success (restart_accepted _) = some true
success (acknowledged_as _) = some true
success (raised _) = none

abbrev pub truthy : Option Bool → Bool
truthy none = false
truthy (some b) = b

-- `200 if result.get("success") else 403`; the server answers 500 for what a handler raises.
unfoldable pub http_status : Reply → ℕ
http_status (raised _) = 500
http_status r = if truthy (success r) then 200 else 403
