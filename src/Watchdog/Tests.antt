-- ===== src/Watchdog/Tests.antt =====
-- Runs of the watchdog, and the theorems at concrete states.
use nexus_trading.Base.{
  ℕ, ◌≡◌, refl, Bool, true, false, Option, none, some, List, [], ◌∷◌, ◌++◌, ◌≤◌, elem, find, ◌+◌,
  ◌<◌, ok, err,
}
use nexus_trading.Watchdog.Monitor.{
  Watchdog, bus_failure, bus_recovery, agent_timeout, heartbeat, init, update_agent_heartbeat,
  check_bus_health, alert, scan, check_agent_heartbeats, Round, rounds, run, stop, changed_size,
}
use nexus_trading.Watchdog.Edges.{check_all, check_all-edges, last_health, edges}
use nexus_trading.Watchdog.Silence.{alerts_bounded, alerts, beats}
use nexus_trading.Watchdog.Reports.{silent_reported, newcomer_raises}

abbrev started : Watchdog
started = init 5000000 true true true

abbrev answers : List (Option Bool)
answers = some true ∷ none ∷ some false ∷ some true ∷ []

check_all-edges_case :
    ((check_all answers started).log ≡ started.log ++ edges started.bus_was_healthy answers)
    × ((check_all answers started).bus_was_healthy ≡ last_health started.bus_was_healthy answers)
unfolding init
check_all-edges_case = check_all-edges answers started refl refl

one_failure : (check_all answers started).log ≡ bus_failure ∷ bus_recovery ∷ []
unfolding init check_bus_health
one_failure = refl

-- Two agents; agent 1 falls silent, is reported once, comes back, and falls silent again.
abbrev quiet_round : ℕ → Round
quiet_round now = record {
  answer = some true;
  before = [];
  now = now;
  meanwhile = [];
  asleep = [];
  stopped = false;
}

abbrev session : List Round
session =
    record (quiet_round 1) { before = (1, 0) ∷ (2, 0) ∷ [] }
    ∷ record (quiet_round 6000000) { before = (2, 5000000) ∷ [] }
    ∷ record (quiet_round 7000000) { before = (2, 6000000) ∷ []; asleep = (1, 7100000) ∷ [] }
    ∷ record (quiet_round 13000000) { before = (2, 12000000) ∷ [] }
    ∷ []

reported_twice : alerts 1 (run session started).1.log ≡ 2
unfolding run rounds init check_bus_health check_agent_heartbeats scan alert update_agent_heartbeat
    stop
reported_twice = refl

alerts_bounded_example : alerts 1 (run session started).1.log ≤ beats 1 (run session started).1.log
alerts_bounded_example = alerts_bounded 1 5000000 true true true session

abbrev silent : Watchdog
silent = record started { agent_last_seen = (1, 0) ∷ (2, 9) ∷ [] }

silent_reported_example :
    let (outcome, w) = check_agent_heartbeats 5000001 [] silent in
    (outcome ≡ ok true)
    × ((b t : ℕ)
        → find silent.agent_last_seen b ≡ some t
        → t + silent.agent_timeout < 5000001
        → elem b w.alerted_agents ≡ true)
silent_reported_example = silent_reported 5000001 silent

newcomer_raises_case :
    let (outcome, w) = check_agent_heartbeats 9000000 (((3, 9000001) ∷ []) ∷ []) silent in
    (outcome ≡ err changed_size) × (w.log ≡ agent_timeout 1 ∷ heartbeat 3 ∷ [])
unfolding init
newcomer_raises_case =
    newcomer_raises 9000000 1 0 3 9000001 ((2, 9) ∷ []) [] silent refl refl refl refl
