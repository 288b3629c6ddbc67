-- ===== src/Raft/Runs.antt =====
-- Runs of the cluster in which proposals, timers and heartbeats interleave.
use nexus_trading.Base.{
  ℕ, zero, suc, Bool, none, some, List, [], ◌∷◌, ◌++◌, if◌then◌else◌, get_elem?, set,
}
use nexus_trading.Raft.Node.{Command, LogEntry, is_leader}
use nexus_trading.Raft.Cluster.{
  NodeId, Cluster, Proposal, get, start, election_timer, send_heartbeats, begin, replicate_to,
  conclude,
}

-- The cluster with the proposals that are under way, and the answers of those that are over.
pub record World : Type 0 where
  pub cluster : Cluster
  pub flights : List Proposal
  pub answers : List (LogEntry × Bool)

pub data Event : Type 0 where
  timers : ℕ → ℕ → NodeId → Event
  heartbeats : ℕ → NodeId → Event
  proposes : NodeId → Command → Event
  -- the event loop goes on with the proposal at this place
  continues : ℕ → ℕ → Event

abbrev pub remove_at : ℕ → List Proposal → List Proposal
remove_at i [] = []
remove_at zero (p ∷ ps) = ps
remove_at (suc i) (p ∷ ps) = p ∷ remove_at i ps

abbrev pub go_on : ℕ → ℕ → List NodeId → Proposal → World → World
go_on now i [] p w =
    let (r, k) = conclude p w.cluster in
    record {
      cluster = k;
      flights = remove_at i w.flights;
      answers = w.answers ++ (p.entry, r) ∷ [];
    }
go_on now i (j ∷ js) p w =
    let (p', k) = replicate_to now j p w.cluster in
    record w { cluster = k; flights = set w.flights i (record p' { todo = js }) }

abbrev pub open_proposal : Proposal × Cluster → World → World
open_proposal (p, k) w = record w { cluster = k; flights = w.flights ++ p ∷ [] }

unfoldable pub step : Event → World → World
step (timers now timeout i) w = record w { cluster = election_timer now timeout i w.cluster }
step (heartbeats now i) w = record w { cluster = send_heartbeats now i w.cluster }
step (proposes i cmd) w =
    if is_leader (get i w.cluster) then open_proposal (begin i cmd w.cluster) w else w
step (continues now i) w = elim (get_elem? w.flights i) [
  | none ↦ w
  | some p ↦ go_on now i p.todo p w
]

unfoldable pub run : List Event → World → World
run [] w = w
run (v ∷ vs) w = run vs (step v w)

abbrev pub fresh : ℕ → World
fresh now = record { cluster = start now; flights = []; answers = [] }
