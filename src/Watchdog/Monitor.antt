-- ===== src/Watchdog/Monitor.antt =====
-- class BusWatchdog. An agent id is the number of its text, a time is in microseconds, and `log`
-- records the callbacks that are awaited and the heartbeats, in order.
use nexus_trading.Base.{
  ℕ, ◌+◌, Bool, true, false, ◌&&◌, not, Option, none, some, List, [], ◌∷◌, ◌++◌, ltb, ◌==◌,
  if◌then◌else◌, length, find, store, keys, elem, add, discard, Result, ok, err,
}

pub data Event : Type 0 where
  bus_failure bus_recovery : Event
  agent_timeout heartbeat : ℕ → Event

pub record Watchdog : Type 0 where
  pub agent_timeout : ℕ
  pub has_failure : Bool
  pub has_recovery : Bool
  pub has_timeout : Bool
  pub running : Bool
  pub bus_was_healthy : Bool
  pub agent_last_seen : List (ℕ × ℕ)
  pub alerted_agents : List ℕ
  pub log : List Event

unfoldable pub init : ℕ → Bool → Bool → Bool → Watchdog
init timeout failure recovery silence = record {
  agent_timeout = timeout;
  has_failure = failure;
  has_recovery = recovery;
  has_timeout = silence;
  running = false;
  bus_was_healthy = true;
  agent_last_seen = [];
  alerted_agents = [];
  log = [];
}

abbrev pub note : Event → Watchdog → Watchdog
note e w = record w { log = w.log ++ e ∷ [] }

unfoldable pub update_agent_heartbeat : ℕ → ℕ → Watchdog → Watchdog
update_agent_heartbeat agent now w = record w {
  agent_last_seen = store w.agent_last_seen agent now;
  alerted_agents = discard w.alerted_agents agent;
  log = w.log ++ heartbeat agent ∷ [];
}

-- The health function's answer; `none` when it raises or is late.
abbrev pub healthy : Option Bool → Bool
healthy none = false
healthy (some b) = b

-- An error that a callback raises is logged only.
unfoldable pub check_bus_health : Option Bool → Watchdog → Watchdog
check_bus_health answer w =
    if not (healthy answer) && w.bus_was_healthy
    then (let down = record w { bus_was_healthy = false } in
        if w.has_failure then note bus_failure down else down)
    else (if healthy answer && not w.bus_was_healthy
        then (let up = record w { bus_was_healthy = true } in
            if w.has_recovery then note bus_recovery up else up)
        else w)

-- The heartbeats, with their times, that arrive while a callback is awaited.
abbrev pub Arrivals : Type 0
Arrivals = List (ℕ × ℕ)

abbrev pub arrive : Arrivals → Watchdog → Watchdog
arrive [] w = w
arrive ((agent, now) ∷ rest) w = arrive rest (update_agent_heartbeat agent now w)

abbrev pub first_of : List Arrivals → Arrivals
first_of [] = []
first_of (a ∷ rest) = a

abbrev pub rest_of : List Arrivals → List Arrivals
rest_of [] = []
rest_of (a ∷ rest) = rest

-- Python's RuntimeError: dictionary changed size during iteration.
pub data Error : Type 0 where
  changed_size : Error

-- The body of the loop of `_check_agent_heartbeats` for one agent.
abbrev pub is_late : ℕ → ℕ → Watchdog → Bool
is_late now agent w = elim (find w.agent_last_seen agent) [
  | none ↦ false
  | some seen ↦ ltb (seen + w.agent_timeout) now && not (elem agent w.alerted_agents)
]

abbrev pub mark : ℕ → Watchdog → Watchdog
mark agent w = record w { alerted_agents = add w.alerted_agents agent }

unfoldable pub alert : ℕ → Arrivals → Watchdog → Watchdog
alert agent meanwhile w =
    if w.has_timeout
    then arrive meanwhile (note (agent_timeout agent) (mark agent w))
    else mark agent w

-- The loop over `items()` of the dict as it is, which raises when its size has changed.
unfoldable pub scan : ℕ → ℕ → List ℕ → List Arrivals → Watchdog → Result Error Bool × Watchdog
scan now size [] meanwhile w =
    if length w.agent_last_seen == size then (ok true, w) else (err changed_size, w)
scan now size (agent ∷ agents) meanwhile w =
    let late = scan now size agents (rest_of meanwhile) (alert agent (first_of meanwhile) w) in
    let next = scan now size agents meanwhile w in
    if length w.agent_last_seen == size
    then (if is_late now agent w then late else next)
    else (err changed_size, w)

unfoldable pub check_agent_heartbeats : ℕ → List Arrivals → Watchdog → Result Error Bool × Watchdog
check_agent_heartbeats now meanwhile w =
    scan now (length w.agent_last_seen) (keys w.agent_last_seen) meanwhile w

-- One round of `run`: the health function's answer, the time, and the heartbeats that arrive while
-- the health function, each callback on an agent, and the sleep are awaited.
pub record Round : Type 0 where
  pub answer : Option Bool
  pub before : Arrivals
  pub now : ℕ
  pub meanwhile : List Arrivals
  pub asleep : Arrivals
  pub stopped : Bool

unfoldable pub stop : Watchdog → Watchdog
stop w = record w { running = false }

abbrev pub unless_raised :
    Result Error Bool → Watchdog → Result Error Bool × Watchdog → Result Error Bool × Watchdog
unless_raised (ok _) w next = next
unless_raised (err e) w next = (err e, w)

-- `run`: a round that raises ends the loop. `stopped` tells whether `stop` is called in the sleep.
unfoldable pub rounds : List Round → Watchdog → Result Error Bool × Watchdog
unfolding stop
rounds [] w = (ok true, w)
rounds (r ∷ rs) w =
    let polled = check_bus_health r.answer (arrive r.before w) in
    let (outcome, checked) = check_agent_heartbeats r.now r.meanwhile polled in
    let slept = arrive r.asleep checked in
    let next = rounds rs (if r.stopped then stop slept else slept) in
    if w.running then unless_raised outcome checked next else (ok true, w)

unfoldable pub run : List Round → Watchdog → Result Error Bool × Watchdog
run rs w = rounds rs (record w { running = true })
