-- ===== src/KillSwitch/Handlers.antt =====
-- The request handlers: trigger, retry_flatten, acknowledge, restart_request, status. A handler
-- runs as one step, from its start to its end, its awaits of the bus and of the audit log included;
-- the flatten task that it starts runs on its own (Flatten.antt).
use nexus_trading.Base.{
  ℕ, Bool, true, false, Result, ok, err, not, ◌||◌, Option, none, some, List, [], ◌∷◌, ◌++◌, String,
  if◌then◌else◌,
}
use nexus_trading.KillSwitch.State.{
  KillSwitch, armed, triggered, flattened, acknowledged, restarting, same_state, switch_triggered,
  switch_retry, switch_acknowledged, switch_restart_requested, BusMessage, kill_switch,
  resume_command, AuditEvent, cancelling, Reply, mfa_failed, status_of, trigger_accepted,
  retry_not_valid, restart_not_valid, retry_accepted, restart_accepted, acknowledged_as, raised,
}
use nexus_trading.KillSwitch.Mfa.{Digest, MfaError, type_error, validate_mfa}

-- What the outside gives to a request: the clock, a fresh uuid, and the exceptions that the bus
-- and the audit log raise, if any.
pub record Env : Type 0 where
  pub now : ℕ
  pub uuid : ℕ
  pub bus_error : Option String
  pub audit_error : Option String

abbrev pub published : Env → BusMessage → List BusMessage → List BusMessage
published e m ms = elim e.bus_error [ none ↦ ms ++ m ∷ [] | some _ ↦ ms ]

-- A request goes on with a valid token only; the test may raise.
abbrev pub when_valid : Result MfaError Bool → Reply × KillSwitch → KillSwitch → Reply × KillSwitch
when_valid (ok true) done k = done
when_valid (ok false) done k = (mfa_failed, k)
when_valid (err type_error) done k = (raised "TypeError", k)

-- `audit.record` at the end of a handler: where it raises, nothing is written, and what stands
-- behind it in the handler is not done.
abbrev pub recorded : Env → AuditEvent → Reply → KillSwitch → KillSwitch → Reply × KillSwitch
recorded e event reply behind k = elim e.audit_error [
  | none ↦ (reply, record behind { audit = k.audit ++ event ∷ [] })
  | some error ↦ (raised error, k)
]

module _ (digest : Digest) (secret : String) where
  -- The part of `trigger` behind the guards, up to the audit event; a failure of the bus is only
  -- logged.
  unfoldable pub fire : Env → String → String → KillSwitch → KillSwitch
  fire e initiator reason k = record k {
    state = triggered;
    trigger_id = some e.uuid;
    triggered_at = some e.now;
    triggered_by = some initiator;
    bus = published e (kill_switch e.uuid reason initiator) k.bus;
  }

  -- The flatten task is created behind the audit event.
  abbrev start_flatten : KillSwitch → KillSwitch
  start_flatten k = record k { tasks = k.tasks ++ cancelling ∷ [] }

  unfoldable pub trigger : Env → String → String → String → KillSwitch → Reply × KillSwitch
  unfolding fire
  trigger e initiator token reason k =
      let fired = fire e initiator reason k in
      let done =
        recorded e (switch_triggered e.uuid initiator reason) (trigger_accepted e.uuid triggered)
          (start_flatten fired) fired in
      when_valid (validate_mfa digest secret e.now token initiator)
        (if not (same_state k.state armed) then (status_of k, k) else done) k

  -- Here the task is created first.
  unfoldable pub retry_flatten : Env → String → String → KillSwitch → Reply × KillSwitch
  retry_flatten e initiator token k =
      let retried = start_flatten (record k { flatten_errors = [] }) in
      let done =
        recorded e (switch_retry k.trigger_id initiator) (retry_accepted k.state) retried retried in
      when_valid (validate_mfa digest secret e.now token initiator)
        (if not (same_state k.state flattened || same_state k.state triggered)
          then (retry_not_valid k.state, k)
          else done)
        k

  unfoldable pub acknowledge : Env → String → String → KillSwitch → Reply × KillSwitch
  acknowledge e operator token k =
      let seen = record k {
        acknowledged_by = some operator;
        state = if same_state k.state flattened then acknowledged else k.state;
      } in
      when_valid (validate_mfa digest secret e.now token operator)
        (recorded e (switch_acknowledged k.trigger_id operator) (acknowledged_as operator) seen
          seen)
        k

  -- The bus may raise here; the state has changed by then, and the audit event is not written.
  abbrev announce : Env → String → KillSwitch → Reply × KillSwitch
  announce e operator k = elim e.bus_error [
    | none ↦
        let sent = record k { bus = k.bus ++ resume_command operator k.trigger_id ∷ [] } in
        recorded e (switch_restart_requested k.trigger_id operator) (restart_accepted k.state) sent
          sent
    | some error ↦ (raised error, k)
  ]

  unfoldable pub restart_request : Env → String → String → KillSwitch → Reply × KillSwitch
  restart_request e operator token k =
      let asked = record k { restart_requested_by = some operator; state = restarting } in
      when_valid (validate_mfa digest secret e.now token operator)
        (if not (same_state k.state acknowledged)
          then (restart_not_valid k.state, k)
          else announce e operator asked)
        k

unfoldable pub status : KillSwitch → Reply
status k = status_of k
