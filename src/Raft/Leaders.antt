-- ===== src/Raft/Leaders.antt =====
-- Terms and leaders over interleaved runs of the cluster.
use nexus_trading.Base.{
  ℕ, zero, suc, ◌+◌, ◌-◌, ◌≤◌, ◌≡◌, refl, sym, ◌∙◌, Bool, some, List, [], ◌∷◌, ◌++◌, get_elem?, set,
  arith, Bool-cases, Option-cases, inl, inr, leb,
}
use native.Mathlib.Nat.{le_refl}
use nexus_trading.Raft.Node.{
  Node, follower, leader, Command, LogEntry, init, is_leader, apply_next, apply_rounds,
  apply_committed, accept, handle_append_entries, handle_request_vote, stand, become_leader,
  handle_heartbeat, new_entry, pop_last,
}
use nexus_trading.Raft.Cluster.{
  NodeId, n0, n1, n2, Cluster, Proposal, get, put, count, start, elect, start_election,
  election_timer, send_heartbeats, begin, replicate_to, conclude,
}
use nexus_trading.Raft.Runs.{
  World, Event, timers, heartbeats, proposes, continues, remove_at, go_on, open_proposal, step, run,
  fresh,
}

apply_rounds_keeps :
    (r : ℕ) (n : Node)
    → ((apply_rounds r n).state ≡ n.state)
      × ((apply_rounds r n).current_term ≡ n.current_term)
      × ((apply_rounds r n).log ≡ n.log)
apply_rounds_keeps zero n = (refl, refl, refl)
apply_rounds_keeps (suc r) n = apply_rounds_keeps r (apply_next n)

pub apply_committed_keeps :
    (n : Node)
    → ((apply_committed n).state ≡ n.state)
      × ((apply_committed n).current_term ≡ n.current_term)
      × ((apply_committed n).log ≡ n.log)
unfolding apply_committed
apply_committed_keeps n = apply_rounds_keeps (n.commit_next - n.applied_next) n

-- A candidate in an even cluster gets both votes.
pub elect-wins :
    (now : ℕ) (n p q : Node)
    → p.current_term ≡ n.current_term
    → q.current_term ≡ n.current_term
    → let (n', p', q') = elect now n p q in
      (n'.state ≡ leader)
      × (p'.state ≡ follower)
      × (q'.state ≡ follower)
      × (n'.current_term ≡ n.current_term + 1)
      × (p'.current_term ≡ n.current_term + 1)
      × (q'.current_term ≡ n.current_term + 1)
unfolding elect stand handle_request_vote become_leader
elect-wins now n p q hp hq = ground arith

-- All nodes have one term, no proposal has a later one, and one node at most leads.
abbrev pub leaders : Cluster → ℕ
leaders k = count (is_leader k.a) + count (is_leader k.b) + count (is_leader k.c)

abbrev pub NotLater : ℕ → List Proposal → Type 0
NotLater t [] = Unit {0}
NotLater t (p ∷ ps) = (p.entry.term ≤ t) × NotLater t ps

pub record IsValid (w : World) : Type 0 where
  pub even_b : w.cluster.b.current_term ≡ w.cluster.a.current_term
  pub even_c : w.cluster.c.current_term ≡ w.cluster.a.current_term
  pub single : leaders w.cluster ≤ 1
  pub flights_old : NotLater w.cluster.a.current_term w.flights

NotLater-mono : (s t : ℕ) (ps : List Proposal) → s ≤ t → NotLater s ps → NotLater t ps
NotLater-mono s t [] h o = tt
NotLater-mono s t (p ∷ ps) h o = (omega arith, NotLater-mono s t ps h o.1)

abbrev with : World → Cluster → World
with w k = record w { cluster = k }

election-IsValid :
    (now : ℕ) (i : NodeId) (w : World)
    → IsValid w
    → IsValid (with w (start_election now i w.cluster))
unfolding start_election
election-IsValid now n0 w v =
    let e = elect-wins now w.cluster.a w.cluster.b w.cluster.c v.even_b v.even_c in
    ground (arith, NotLater-mono w.cluster.a.current_term (w.cluster.a.current_term + 1) w.flights)
election-IsValid now n1 w v =
    let e =
      elect-wins now w.cluster.b w.cluster.a w.cluster.c (sym v.even_b) (v.even_c ∙ sym v.even_b) in
    ground (arith, NotLater-mono w.cluster.a.current_term (w.cluster.a.current_term + 1) w.flights)
election-IsValid now n2 w v =
    let e =
      elect-wins now w.cluster.c w.cluster.a w.cluster.b (sym v.even_c) (v.even_b ∙ sym v.even_c) in
    ground (arith, NotLater-mono w.cluster.a.current_term (w.cluster.a.current_term + 1) w.flights)

timer-IsValid :
    (now timeout : ℕ) (i : NodeId) (w : World)
    → IsValid w
    → IsValid (with w (election_timer now timeout i w.cluster))
unfolding election_timer
timer-IsValid now timeout i w v = ground (arith, election-IsValid now i w v)

heartbeat-IsValid :
    (now : ℕ) (i : NodeId) (w : World)
    → IsValid w
    → IsValid (with w (send_heartbeats now i w.cluster))
unfolding send_heartbeats handle_heartbeat
heartbeat-IsValid now n0 w v = ground arith
heartbeat-IsValid now n1 w v = ground arith
heartbeat-IsValid now n2 w v = ground arith

NotLater-append :
    (t : ℕ) (ps : List Proposal) (p : Proposal)
    → NotLater t ps
    → p.entry.term ≤ t
    → NotLater t (ps ++ p ∷ [])
NotLater-append t [] p o h = (h, tt)
NotLater-append t (x ∷ ps) p o h = (o.0, NotLater-append t ps p o.1 h)

NotLater-get :
    (t i : ℕ) (ps : List Proposal) (p : Proposal)
    → NotLater t ps
    → get_elem? ps i ≡ some p
    → p.entry.term ≤ t
NotLater-get t i [] p o g = cc
NotLater-get t zero (x ∷ ps) p o g = ground arith
NotLater-get t (suc i) (x ∷ ps) p o g = NotLater-get t i ps p o.1 g

NotLater-set :
    (t i : ℕ) (ps : List Proposal) (p : Proposal)
    → NotLater t ps
    → p.entry.term ≤ t
    → NotLater t (set ps i p)
NotLater-set t i [] p o h = tt
NotLater-set t zero (x ∷ ps) p o h = (h, o.1)
NotLater-set t (suc i) (x ∷ ps) p o h = (o.0, NotLater-set t i ps p o.1 h)

NotLater-remove_at : (t i : ℕ) (ps : List Proposal) → NotLater t ps → NotLater t (remove_at i ps)
NotLater-remove_at t i [] o = tt
NotLater-remove_at t zero (x ∷ ps) o = o.1
NotLater-remove_at t (suc i) (x ∷ ps) o = (o.0, NotLater-remove_at t i ps o.1)

begin-IsValid :
    (i : NodeId) (cmd : Command) (w : World)
    → IsValid w
    → IsValid (open_proposal (begin i cmd w.cluster) w)
unfolding begin new_entry
begin-IsValid n0 cmd w v =
    ground (arith, NotLater-append w.cluster.a.current_term w.flights (begin n0 cmd w.cluster).0)
begin-IsValid n1 cmd w v =
    ground (arith, NotLater-append w.cluster.a.current_term w.flights (begin n1 cmd w.cluster).0)
begin-IsValid n2 cmd w v =
    ground (arith, NotLater-append w.cluster.a.current_term w.flights (begin n2 cmd w.cluster).0)

-- A peer that takes an entry of no later term keeps its term and does not become a leader.
append_keeps :
    (now : ℕ) (e : LogEntry) (n : Node)
    → e.term ≤ n.current_term
    → let n' = (handle_append_entries now e n).1 in
      (n'.current_term ≡ n.current_term) × (count (is_leader n') ≤ count (is_leader n))
unfolding handle_append_entries
append_keeps now e n h = ground (arith, apply_committed_keeps (accept now e n))

put-IsValid :
    (i : NodeId) (n : Node) (w : World)
    → IsValid w
    → n.current_term ≡ (get i w.cluster).current_term
    → count (is_leader n) ≤ count (is_leader (get i w.cluster))
    → IsValid (with w (put i n w.cluster))
put-IsValid n0 n w v t l =
    ground (arith, NotLater-mono w.cluster.a.current_term n.current_term w.flights)
put-IsValid n1 n w v t l = ground arith
put-IsValid n2 n w v t l = ground arith

term_of :
    (i : NodeId) (w : World) → IsValid w → (get i w.cluster).current_term ≡ w.cluster.a.current_term
term_of n0 w v = refl
term_of n1 w v = v.even_b
term_of n2 w v = v.even_c

conclude-IsValid :
    (p : Proposal) (w : World) → IsValid w → IsValid (with w (conclude p w.cluster).1)
unfolding conclude
conclude-IsValid p w v = elim (Bool-cases (leb 2 p.acks)) [
  | inl enough ↦
      let n = record (get p.proposer w.cluster) { commit_next = p.entry.index + 1 } in
      let keeps = apply_committed_keeps n in
      rw enough
        (put-IsValid p.proposer (apply_committed n) w v (keeps.1) (rw (keeps.0) (le_refl _)))
  | inr few ↦
      let n = get p.proposer w.cluster in
      rw few (put-IsValid p.proposer (record n { log = pop_last n.log }) w v refl (le_refl _))
]

replicate-IsValid :
    (now : ℕ) (j : NodeId) (p : Proposal) (w : World)
    → IsValid w
    → p.entry.term ≤ w.cluster.a.current_term
    → IsValid (with w (replicate_to now j p w.cluster).1)
unfolding replicate_to
replicate-IsValid now j p w v h =
    let keeps = append_keeps now p.entry (get j w.cluster) (omega (arith, term_of j w v)) in
    put-IsValid j (handle_append_entries now p.entry (get j w.cluster)).1 w v (keeps.0) (keeps.1)

flights-IsValid :
    (w : World) (ps : List Proposal) (rs : List (LogEntry × Bool))
    → IsValid w
    → NotLater w.cluster.a.current_term ps
    → IsValid (record { cluster = w.cluster; flights = ps; answers = rs })
flights-IsValid w ps rs v o = record {
  even_b = v.even_b;
  even_c = v.even_c;
  single = v.single;
  flights_old = o;
}

go_on-IsValid :
    (now i : ℕ) (todo : List NodeId) (p : Proposal) (w : World)
    → IsValid w
    → get_elem? w.flights i ≡ some p
    → IsValid (go_on now i todo p w)
unfolding replicate_to
go_on-IsValid now i [] p w v g =
    let v' = conclude-IsValid p w v in
    flights-IsValid (with w (conclude p w.cluster).1) (remove_at i w.flights)
      (w.answers ++ (p.entry, (conclude p w.cluster).0) ∷ []) v'
      (NotLater-remove_at _ i w.flights v'.flights_old)
go_on-IsValid now i (j ∷ js) p w v g =
    let h = NotLater-get w.cluster.a.current_term i w.flights p v.flights_old g in
    let v' = replicate-IsValid now j p w v h in
    let w' = with w (replicate_to now j p w.cluster).1 in
    let p' = record p { acks = (replicate_to now j p w.cluster).0.acks; todo = js } in
    flights-IsValid w' (set w.flights i p') w.answers v'
      (NotLater-set _ i w.flights p' v'.flights_old (NotLater-get _ i w.flights p v'.flights_old g))

step-IsValid : (x : Event) (w : World) → IsValid w → IsValid (step x w)
unfolding step
step-IsValid (timers now timeout i) w v = timer-IsValid now timeout i w v
step-IsValid (heartbeats now i) w v = heartbeat-IsValid now i w v
step-IsValid (proposes i cmd) w v = elim (Bool-cases (is_leader (get i w.cluster))) [
  | inl leads ↦ rw leads (begin-IsValid i cmd w v)
  | inr not_leading ↦ rw not_leading v
]
step-IsValid (continues now i) w v = elim (Option-cases (get_elem? w.flights i)) [
  | inl e ↦ rw (e, step) v
  | inr (p, e) ↦ rw (e, step) (go_on-IsValid now i p.todo p w v e)
]

run-IsValid : (xs : List Event) (w : World) → IsValid w → IsValid (run xs w)
unfolding run
run-IsValid [] w v = v
run-IsValid (x ∷ xs) w v = run-IsValid xs (step x w) (step-IsValid x w v)

-- From the start of the cluster, and after any interleaving of election timers, heartbeats and the
-- steps of any number of proposals, the three nodes are in one term, and at most one of them is
-- leader; no proposal under way carries a later term.
pub one_leader : (now : ℕ) (xs : List Event) → IsValid (run xs (fresh now))
unfolding start init
one_leader now xs = run-IsValid xs (fresh now) (omega arith)
