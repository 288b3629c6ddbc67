-- ===== src/Raft/Cluster.antt =====
-- RaftCluster, and the steps of its nodes: timers, elections, heartbeats, proposals. A call of a
-- peer's method that does not suspend runs at once; `on_commit` may suspend, so a proposal is also
-- cut at its calls of the peers (`begin`, `replicate`, `conclude`).
use nexus_trading.Base.{
  ℕ, zero, suc, ◌+◌, ◌-◌, Bool, true, false, Option, none, some, List, [], ◌∷◌, ◌++◌, leb,
  if◌then◌else◌, length,
}
use nexus_trading.Raft.Node.{
  Node, Command, LogEntry, init, is_leader, apply_committed, handle_append_entries,
  handle_request_vote, stand, become_leader, handle_heartbeat, new_entry, pop_last,
}

pub data NodeId : Type 0 where
  n0 n1 n2 : NodeId

-- An entry on its way: the proposing node, the answers so far, the peers still to be called.
pub record Proposal : Type 0 where
  pub proposer : NodeId
  pub entry : LogEntry
  pub acks : ℕ
  pub todo : List NodeId

pub record Cluster : Type 0 where
  pub a : Node
  pub b : Node
  pub c : Node

unfoldable pub start : ℕ → Cluster
unfolding init
start now = record { a = init 0 now; b = init 1 now; c = init 2 now }

abbrev pub get : NodeId → Cluster → Node
get n0 k = k.a
get n1 k = k.b
get n2 k = k.c

abbrev pub put : NodeId → Node → Cluster → Cluster
put n0 n k = record k { a = n }
put n1 n k = record k { b = n }
put n2 n k = record k { c = n }

-- `[n for n in nodes if n._id != node._id]`
abbrev pub first_peer : NodeId → NodeId
first_peer n0 = n1
first_peer n1 = n0
first_peer n2 = n0

abbrev pub second_peer : NodeId → NodeId
second_peer n0 = n2
second_peer n1 = n2
second_peer n2 = n1

abbrev pub count : Bool → ℕ
count true = 1
count false = 0

-- `_start_election` on a node and its two peers. The lines from `stand` to the end run at once.
unfoldable pub elect : ℕ → Node → Node → Node → Node × Node × Node
elect now n p q =
    let s = stand n in
    let (granted_p, p') = handle_request_vote now s.id s.current_term (length s.log) p in
    let (granted_q, q') = handle_request_vote now s.id s.current_term (length s.log) q in
    (if leb 2 (1 + count granted_p + count granted_q) then become_leader p.id q.id s else s, p', q')

unfoldable pub start_election : ℕ → NodeId → Cluster → Cluster
start_election now n0 k = let (n, p, q) = elect now k.a k.b k.c in record { a = n; b = p; c = q }
start_election now n1 k = let (n, p, q) = elect now k.b k.a k.c in record { a = p; b = n; c = q }
start_election now n2 k = let (n, p, q) = elect now k.c k.a k.b in record { a = p; b = q; c = n }

-- One round of `_election_timer_loop`, after its sleep of `timeout`.
unfoldable pub election_timer : ℕ → ℕ → NodeId → Cluster → Cluster
election_timer now timeout i k =
    if is_leader (get i k)
    then k
    else if leb timeout (now - (get i k).last_heartbeat)
    then start_election now i k
    else k

unfoldable pub send_heartbeats : ℕ → NodeId → Cluster → Cluster
send_heartbeats now i k =
    let t = (get i k).current_term in
    let p = first_peer i in
    let q = second_peer i in
    put q (handle_heartbeat now t (get q k)) (put p (handle_heartbeat now t (get p k)) k)

-- The start of a proposal by a leader.
unfoldable pub begin : NodeId → Command → Cluster → Proposal × Cluster
unfolding new_entry
begin i cmd k =
    let n = get i k in
    let e = new_entry cmd n in
    (
      record { proposer = i; entry = e; acks = 1; todo = first_peer i ∷ second_peer i ∷ [] },
      put i (record n { log = n.log ++ e ∷ [] }) k,
    )

-- The call of the next peer.
unfoldable pub replicate_to : ℕ → NodeId → Proposal → Cluster → Proposal × Cluster
replicate_to now j p k =
    let (accepted, n) = handle_append_entries now p.entry (get j k) in
    (record p { acks = p.acks + count accepted }, put j n k)

-- The end of a proposal: commit on a majority, or take the entry back.
unfoldable pub conclude : Proposal → Cluster → Bool × Cluster
conclude p k =
    let n = get p.proposer k in
    if leb 2 p.acks
    then (true, put p.proposer (apply_committed (record n { commit_next = p.entry.index + 1 })) k)
    else (false, put p.proposer (record n { log = pop_last n.log }) k)

-- RaftNode.propose, when nothing suspends.
unfoldable pub propose : ℕ → NodeId → Command → Cluster → Bool × Cluster
propose now i cmd k =
    if is_leader (get i k)
    then (let (p0, k0) = begin i cmd k in
        let (p1, k1) = replicate_to now (first_peer i) p0 k0 in
        let (p2, k2) = replicate_to now (second_peer i) p1 k1 in conclude p2 k2)
    else (false, k)

-- RaftCluster.get_leader
unfoldable pub get_leader : Cluster → Option NodeId
get_leader k =
    if is_leader k.a
    then some n0
    else (if is_leader k.b then some n1 else (if is_leader k.c then some n2 else none))

abbrev try_leader : ℕ → Command → Option NodeId → Cluster → Bool × Cluster
try_leader now cmd none k = (false, k)
try_leader now cmd (some i) k = propose now i cmd k

-- RaftCluster.propose: three rounds, with what the other tasks do during each sleep.
unfoldable pub route : ℕ → ℕ → Command → (ℕ → Cluster → Cluster) → Cluster → Bool × Cluster
route zero now cmd asleep k = (false, k)
route (suc r) now cmd asleep k =
    let (committed, k') = try_leader now cmd (get_leader k) k in
    let rest = route r now cmd asleep (asleep r k') in if committed then (true, k') else rest

abbrev pub cluster_propose : ℕ → Command → (ℕ → Cluster → Cluster) → Cluster → Bool × Cluster
cluster_propose = route 3
