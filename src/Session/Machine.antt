-- ===== src/Session/Machine.antt =====
-- class SessionStateMachine: its fields, transition_to, and the helpers that call it.
use nexus_trading.Base.{
  ℕ, ◌+◌, Bool, true, false, not, ◌&&◌, Option, none, some, List, [], ◌∷◌, ◌++◌, String, ltb,
  length, if◌then◌else◌, text_truthy, Result, ok, err,
}
use nexus_trading.Session.States.{
  SessionState, booting, waiting_for_data_integrity, waiting_for_regime, active, paused_cooldown,
  halted_risk, halted_anomaly, halted_reconciliation, shutdown, same_state, is_one_of,
  session_state_transitions, human_approval_required,
}

-- The texts that the code formats, by the values that it formats.
pub data Reason : Type 0 where
  given : String → Reason
  auto_resume_after : ℕ → Reason → Reason

pub record Entry : Type 0 where
  pub from : SessionState
  pub to : SessionState
  pub reason : Reason
  pub approved_by : Option String
  pub at : ℕ

pub data Error : Type 0 where
  not_permitted : SessionState → SessionState → Error
  needs_approval : SessionState → Error
  callback_raised : String → Error

-- The async callback of the constructor; `some e` means that it raises `e`.
abbrev pub Callback : Type 0
Callback = SessionState → SessionState → Reason → Option String

pub record Machine : Type 0 where
  pub state : SessionState
  pub previous_state : SessionState
  pub reason : Reason
  pub entered_at : ℕ
  pub on_transition : Option Callback
  pub pending_approval_by : Option String
  pub history : List Entry

unfoldable pub init : Option Callback → ℕ → Machine
init callback now = record {
  state = booting;
  previous_state = booting;
  reason = given "System startup";
  entered_at = now;
  on_transition = callback;
  pending_approval_by = none;
  history = [];
}

unfoldable pub is_trading_permitted : Machine → Bool
is_trading_permitted m = same_state m.state active

unfoldable pub is_halted : Machine → Bool
is_halted m = is_one_of m.state human_approval_required

unfoldable pub is_paused : Machine → Bool
is_paused m = same_state m.state paused_cooldown

-- `list.pop(0)`
abbrev pub pop_first : List Entry → List Entry
pop_first [] = []
pop_first (e ∷ es) = es

-- `self._history.append(entry)`, and the oldest entry goes when there are more than 50.
unfoldable pub append_entry : List Entry → Entry → List Entry
append_entry h e =
    let longer = h ++ e ∷ [] in if ltb 50 (length longer) then pop_first longer else longer

-- The gate for halted states: true when the call is refused for want of an approver.
abbrev pub lacks_approval : SessionState → SessionState → Option String → Bool
lacks_approval from to who =
    is_one_of from human_approval_required && (same_state to active && not (text_truthy who))

-- The assignments of a transition that has passed its guards.
unfoldable pub enter : ℕ → SessionState → Reason → Option String → Machine → Machine
enter now new reason who m = record m {
  previous_state = m.state;
  state = new;
  reason = reason;
  entered_at = now;
  pending_approval_by = if text_truthy who then who else m.pending_approval_by;
  history =
      append_entry m.history
        (record { from = m.state; to = new; reason = reason; approved_by = who; at = now });
}

-- `await self._on_transition(...)`: what it raises goes to the caller.
abbrev pub notify : Option Callback → SessionState → SessionState → Reason → Result Error Bool
notify none from to reason = ok true
notify (some callback) from to reason = elim (callback from to reason) [
  | none ↦ ok true
  | some e ↦ err (callback_raised e)
]

-- The machine comes back also when the call raises.
unfoldable pub transition_to :
    ℕ → SessionState → Reason → Option String → Machine → Result Error Bool × Machine
unfolding enter append_entry
transition_to now new reason who m =
    if same_state new m.state
    then (ok false, m)
    else if not (is_one_of new (session_state_transitions m.state))
    then (err (not_permitted m.state new), m)
    else if lacks_approval m.state new who
    then (err (needs_approval m.state), m)
    else (notify m.on_transition m.state new reason, enter now new reason who m)

unfoldable pub boot_complete : ℕ → Machine → Result Error Bool × Machine
boot_complete now =
    transition_to now waiting_for_data_integrity
      (given "Boot sequence complete — awaiting data integrity clearance") none

unfoldable pub data_integrity_cleared : ℕ → Machine → Result Error Bool × Machine
data_integrity_cleared now =
    transition_to now waiting_for_regime
      (given "Data integrity cleared — awaiting regime assessment") none

unfoldable pub regime_ready : ℕ → Machine → Result Error Bool × Machine
regime_ready now =
    transition_to now active (given "Regime assessment complete — trading active") none

unfoldable pub halt_risk : ℕ → Reason → Machine → Result Error Bool × Machine
halt_risk now reason = transition_to now halted_risk reason none

unfoldable pub halt_anomaly : ℕ → Reason → Machine → Result Error Bool × Machine
halt_anomaly now reason = transition_to now halted_anomaly reason none

unfoldable pub halt_reconciliation : ℕ → Reason → Machine → Result Error Bool × Machine
halt_reconciliation now reason = transition_to now halted_reconciliation reason none

unfoldable pub human_resume : ℕ → String → Reason → Machine → Result Error Bool × Machine
human_resume now who reason = transition_to now active reason (some who)

unfoldable pub shut_down : ℕ → Reason → Machine → Result Error Bool × Machine
shut_down now reason = transition_to now shutdown reason none

-- A sleeping `_auto_resume` task.
pub record Task : Type 0 where
  pub due : ℕ
  pub duration : ℕ
  pub pause_reason : Reason

-- The machine with the auto-resume tasks that it has started and that still sleep.
pub record World : Type 0 where
  pub machine : Machine
  pub tasks : List Task

-- A task is created only if transition_to did not raise.
abbrev pub schedule : Result Error Bool → Task → List Task → List Task
schedule (ok _) t ts = ts ++ t ∷ []
schedule (err _) t ts = ts

unfoldable pub pause_cooldown : ℕ → Reason → ℕ → World → Result Error Bool × World
pause_cooldown now reason duration w =
    let (r, m) = transition_to now paused_cooldown reason none w.machine in
    (
      r,
      record {
        machine = m;
        tasks =
            schedule r (record { due = now + duration; duration = duration; pause_reason = reason })
              w.tasks;
      },
    )

-- What a task does when its sleep is over.
unfoldable pub auto_resume : ℕ → Task → Machine → Machine
auto_resume now t m =
    if same_state m.state paused_cooldown
    then (transition_to now active (auto_resume_after t.duration t.pause_reason) none m).1
    else m
