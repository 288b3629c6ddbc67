-- ===== src/Raft/Agreement.antt =====
-- The log and the applied commands of the cluster when every proposal runs to its end undisturbed.
use nexus_trading.Base.{
  ℕ, ◌+◌, ◌-◌, ◌≡◌, refl, sym, ap, ◌∙◌, true, false, some, List, [], ◌∷◌, ◌++◌, ltb, leb, get_elem?,
  length, length-append, arith, Bool-cases, inl, inr,
}
use nexus_trading.Raft.Node.{
  Node, Command, LogEntry, init, is_leader, accept, apply_committed, handle_append_entries,
  handle_request_vote, stand, become_leader, handle_heartbeat, new_entry,
}
use nexus_trading.Raft.Cluster.{
  NodeId, n0, n1, n2, Cluster, get, start, elect, start_election, election_timer, send_heartbeats,
  begin, replicate_to, conclude, propose,
}
use nexus_trading.Raft.Leaders.{elect-wins}

pub data Act : Type 0 where
  timers : ℕ → ℕ → NodeId → Act
  heartbeats : ℕ → NodeId → Act
  proposes : ℕ → NodeId → Command → Act

unfoldable pub act : Act → Cluster → Cluster
act (timers now timeout i) k = election_timer now timeout i k
act (heartbeats now i) k = send_heartbeats now i k
act (proposes now i cmd) k = (propose now i cmd k).1

unfoldable pub act_all : List Act → Cluster → Cluster
act_all [] k = k
act_all (x ∷ xs) k = act_all xs (act x k)

-- A node has this log, all of it committed and applied, in this term.
pub record Holds (term : ℕ) (log : List LogEntry) (n : Node) : Type 0 where
  pub same_term : n.current_term ≡ term
  pub same_log : n.log ≡ log
  pub committed : n.commit_next ≡ length log
  pub applied : n.applied_next ≡ length log
  pub handed_on : n.delivered ≡ log

abbrev pub Agree : ℕ → List LogEntry → Cluster → Type 0
Agree term log k = Holds term log k.a × Holds term log k.b × Holds term log k.c

get_elem?-append :
    (es : List LogEntry) (e : LogEntry) → get_elem? (es ++ e ∷ []) (length es) ≡ some e
get_elem?-append [] e = refl
get_elem?-append (x ∷ es) e = get_elem?-append es e

-- One more entry, at the end of a log that is applied so far.
commit-Holds :
    (term : ℕ) (log : List LogEntry) (e : LogEntry) (n : Node)
    → n.current_term ≡ term
    → n.log ≡ log ++ e ∷ []
    → n.commit_next ≡ length log + 1
    → n.applied_next ≡ length log
    → n.delivered ≡ log
    → Holds term (log ++ e ∷ []) (apply_committed n)
unfolding apply_committed
commit-Holds term log e n t l c a d =
    let one : n.commit_next - n.applied_next ≡ 1 = omega arith in
    rw (one, apply_committed)
      (record {
        same_term = t;
        same_log = l;
        committed = omega (arith, length-append log (e ∷ []));
        applied = omega (arith, length-append log (e ∷ []));
        handed_on = rw (a, l, d, get_elem?-append log e);
      })

append-Holds :
    (now term : ℕ) (log : List LogEntry) (e : LogEntry) (n : Node)
    → Holds term log n
    → e.term ≡ term
    → e.index ≡ length log
    → ((handle_append_entries now e n).0 ≡ true)
      × Holds term (log ++ e ∷ []) (handle_append_entries now e n).1
unfolding handle_append_entries
append-Holds now term log e n h t i =
    let current : ltb e.term n.current_term ≡ false = ground (arith, h.same_term) in
    rw (current, handle_append_entries)
      (
        refl,
        commit-Holds term log e (accept now e n) (ground (arith, h.same_term)) (rw (h.same_log))
            (rw i) (h.applied) (h.handed_on),
      )

module _ (now : ℕ) (cmd : Command) (k : Cluster) (term : ℕ) (log : List LogEntry)
    (agree : Agree term log k) where
  abbrev pub Proposed : NodeId → Type 0
  Proposed i =
      ((propose now i cmd k).0 ≡ true)
      × Agree term (log ++ new_entry cmd (get i k) ∷ []) (propose now i cmd k).1

  -- A peer takes the entry of a leader, and the leader commits it.
  peer-Holds :
      (i j : NodeId)
      → Holds term log (get i k)
      → Holds term log (get j k)
      → ((handle_append_entries now (new_entry cmd (get i k)) (get j k)).0 ≡ true)
        × Holds term
            (log ++ new_entry cmd (get i k) ∷ [])
            (handle_append_entries now (new_entry cmd (get i k)) (get j k)).1
  unfolding new_entry
  peer-Holds i j hi hj =
      append-Holds now term log (new_entry cmd (get i k)) (get j k) hj (hi.same_term)
        (ap length (hi.same_log))

  leader-Holds :
      (i : NodeId)
      → Holds term log (get i k)
      → let e = new_entry cmd (get i k) in
        Holds term (log ++ e ∷ []) (
          apply_committed
            (record (get i k) { log = (get i k).log ++ e ∷ []; commit_next = e.index + 1 }))
  unfolding new_entry
  leader-Holds i h =
      let e = new_entry cmd (get i k) in
      commit-Holds term log e
        (record (get i k) { log = (get i k).log ++ e ∷ []; commit_next = e.index + 1 })
        (h.same_term) (rw (h.same_log)) (rw (h.same_log)) (h.applied) (h.handed_on)

  pub propose-Agree : (i : NodeId) → is_leader (get i k) ≡ true → Proposed i
  unfolding propose begin replicate_to conclude
  propose-Agree n0 leads =
      let b = peer-Holds n0 n1 agree.0 agree.1 in
      let c = peer-Holds n0 n2 agree.0 agree.2 in
      rw (leads, b.0, c.0) (refl, (leader-Holds n0 agree.0, b.1, c.1))
  propose-Agree n1 leads =
      let a = peer-Holds n1 n0 agree.1 agree.0 in
      let c = peer-Holds n1 n2 agree.1 agree.2 in
      rw (leads, a.0, c.0) (refl, (a.1, leader-Holds n1 agree.1, c.1))
  propose-Agree n2 leads =
      let a = peer-Holds n2 n0 agree.2 agree.0 in
      let b = peer-Holds n2 n1 agree.2 agree.1 in
      rw (leads, a.0, b.0) (refl, (a.1, b.1, leader-Holds n2 agree.2))

-- An election changes nothing of the logs.
abbrev Unread : Node → Node → Type 0
Unread m n =
    (m.log ≡ n.log)
    × (m.commit_next ≡ n.commit_next)
    × (m.applied_next ≡ n.applied_next)
    × (m.delivered ≡ n.delivered)

elect-Unread :
    (now : ℕ) (n p q : Node)
    → let (n', p', q') = elect now n p q in Unread n' n × Unread p' p × Unread q' q
unfolding elect stand handle_request_vote become_leader
elect-Unread now n p q = ground arith

Holds-Unread :
    (term term' : ℕ) (log : List LogEntry) (m n : Node)
    → Holds term log n
    → Unread m n
    → m.current_term ≡ term'
    → Holds term' log m
Holds-Unread term term' log m n h u t = ground arith

elect-Holds :
    (now term : ℕ) (log : List LogEntry) (n p q : Node)
    → Holds term log n
    → Holds term log p
    → Holds term log q
    → let (n', p', q') = elect now n p q in
      Holds (term + 1) log n' × Holds (term + 1) log p' × Holds (term + 1) log q'
elect-Holds now term log n p q hn hp hq =
    let w =
      elect-wins now n p q (hp.same_term ∙ sym hn.same_term) (hq.same_term ∙ sym hn.same_term) in
    let u = elect-Unread now n p q in
    let t : n.current_term + 1 ≡ term + 1 = ap (λ x. x + 1) hn.same_term in
    let (n', p', q') = elect now n p q in
    (
      Holds-Unread term (term + 1) log n' n hn u.0 (w.3 ∙ t),
      Holds-Unread term (term + 1) log p' p hp u.1 (w.4 ∙ t),
      Holds-Unread term (term + 1) log q' q hq u.2 (w.5 ∙ t),
    )

election-Agree :
    (now term : ℕ) (i : NodeId) (log : List LogEntry) (k : Cluster)
    → Agree term log k
    → Agree (term + 1) log (start_election now i k)
unfolding start_election
election-Agree now term n0 log k (ha, hb, hc) = elect-Holds now term log k.a k.b k.c ha hb hc
election-Agree now term n1 log k (ha, hb, hc) =
    let e = elect-Holds now term log k.b k.a k.c hb ha hc in (e.1, e.0, e.2)
election-Agree now term n2 log k (ha, hb, hc) =
    let e = elect-Holds now term log k.c k.a k.b hc ha hb in (e.1, e.2, e.0)

heartbeat-Agree :
    (now term : ℕ) (i : NodeId) (log : List LogEntry) (k : Cluster)
    → Agree term log k
    → Agree term log (send_heartbeats now i k)
unfolding send_heartbeats handle_heartbeat
heartbeat-Agree now term n0 log k h = ground arith
heartbeat-Agree now term n1 log k h = ground arith
heartbeat-Agree now term n2 log k h = ground arith

-- Some term and some log in which the three nodes agree.
abbrev pub InAgreement : Cluster → Type 0
InAgreement k = (term : ℕ) × (log : List LogEntry) × Agree term log k

timer-InAgreement :
    (now timeout : ℕ) (i : NodeId) (k : Cluster)
    → InAgreement k
    → InAgreement (election_timer now timeout i k)
unfolding election_timer
timer-InAgreement now timeout i k (term, log, h) = elim (Bool-cases (is_leader (get i k))) [
  | inl leads ↦ rw leads (term, log, h)
  | inr follows ↦ elim (Bool-cases (leb timeout (now - (get i k).last_heartbeat))) [
    | inl late ↦ rw (follows, late) (term + 1, log, election-Agree now term i log k h)
    | inr early ↦ rw (follows, early) (term, log, h)
  ]
]

propose_follower :
    (now : ℕ) (i : NodeId) (cmd : Command) (k : Cluster)
    → is_leader (get i k) ≡ false
    → propose now i cmd k ≡ (false, k)
unfolding propose
propose_follower now i cmd k follows = rw follows

act-InAgreement : (x : Act) (k : Cluster) → InAgreement k → InAgreement (act x k)
unfolding act
act-InAgreement (timers now timeout i) k g = timer-InAgreement now timeout i k g
act-InAgreement (heartbeats now i) k (term, log, h) =
    (term, log, heartbeat-Agree now term i log k h)
act-InAgreement (proposes now i cmd) k (term, log, h) = elim (Bool-cases (is_leader (get i k))) [
  | inl leads ↦ (term, _, (propose-Agree now cmd k term log h i leads).1)
  | inr follows ↦ rw (ap (λ r. r.1) (propose_follower now i cmd k follows)) (term, log, h)
]

act_all-InAgreement : (xs : List Act) (k : Cluster) → InAgreement k → InAgreement (act_all xs k)
unfolding act_all
act_all-InAgreement [] k g = g
act_all-InAgreement (x ∷ xs) k g = act_all-InAgreement xs (act x k) (act-InAgreement x k g)

module _ (now : ℕ) where
  start-Holds : (id : ℕ) → Holds 0 [] (init id now)
  unfolding init
  start-Holds id = record {
    same_term = refl;
    same_log = refl;
    committed = refl;
    applied = refl;
    handed_on = refl;
  }

-- When proposals are not interrupted: after any sequence of timers, heartbeats and proposals since
-- the start, the three nodes have one term and one log, and each has committed all of that log and
-- handed exactly its entries to `on_commit`, in order.
pub nodes_agree : (now : ℕ) (xs : List Act) → InAgreement (act_all xs (start now))
unfolding start
nodes_agree now xs =
    act_all-InAgreement xs (start now)
      (0, [], (start-Holds now 0, start-Holds now 1, start-Holds now 2))

-- In such a cluster a proposal returns True exactly when its node is the leader, and then every
-- node's log has grown by that one command, in the leader's term; otherwise nothing changes.
pub propose_iff :
    (now wall : ℕ) (xs : List Act) (i : NodeId) (cmd : Command)
    → let k = act_all xs (start now) in
      let (committed, k') = propose wall i cmd k in
      (committed ≡ is_leader (get i k))
      × ((is_leader (get i k) ≡ true)
          → (k'.a.log ≡ k.a.log ++ new_entry cmd (get i k) ∷ [])
            × (k'.b.log ≡ k'.a.log)
            × (k'.c.log ≡ k'.a.log))
      × ((is_leader (get i k) ≡ false) → k' ≡ k)
propose_iff now wall xs i cmd =
    let k = act_all xs (start now) in
    let (term, log, h) = nodes_agree now xs in
    elim (Bool-cases (is_leader (get i k))) [
      | inl leads ↦
          let m = propose-Agree wall cmd k term log h i leads in
          (
            m.0 ∙ sym leads,
            (λ e. (
              m.1.0.same_log ∙ ap (λ l. l ++ new_entry cmd (get i k) ∷ []) (sym h.0.same_log),
              m.1.1.same_log ∙ sym m.1.0.same_log,
              m.1.2.same_log ∙ sym m.1.0.same_log,
            )),
            (λ e. cc),
          )
      | inr follows ↦
          let e = propose_follower wall i cmd k follows in
          (ap (λ r. r.0) e ∙ sym follows, (λ l. cc), (λ l. ap (λ r. r.1) e))
    ]
