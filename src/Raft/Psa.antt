-- ===== src/Raft/Psa.antt =====
-- class RaftPSA: halts and resumes of the supervisor through the log of the cluster.
use nexus_trading.Base.{
  ℕ, ◌≡◌, refl, sym, ap, ◌∙◌, Bool, true, false, some, List, [], ◌∷◌, ◌++◌, String, if◌then◌else◌,
  arith,
}
use mathlib.Core.List.{append_assoc, append-nil}
use nexus_trading.Raft.Node.{
  Node, Command, halt, resume, other_command, LogEntry, is_leader, new_entry,
}
use nexus_trading.Raft.Cluster.{
  NodeId, n0, n1, n2, Cluster, get, start, propose, get_leader, route, cluster_propose,
}
use nexus_trading.Raft.Agreement.{Act, act_all, Holds, nodes_agree, propose-Agree}

-- The calls that the supervisor gets: `_halt`, and `_resume` or `_unpause`.
pub data PsaCall : Type 0 where
  halts : String → String → PsaCall
  resumes : String → PsaCall

-- `_on_commit`; `can_resume` tells whether the supervisor has one of the two resume methods.
unfoldable pub on_commit : Bool → Command → List PsaCall
on_commit can_resume (halt reason breach) = halts reason breach ∷ []
on_commit can_resume (resume by) = if can_resume then resumes by ∷ [] else []
on_commit can_resume (other_command action) = []

-- The calls that a node's deliveries make.
unfoldable pub calls : Bool → List LogEntry → List PsaCall
calls can_resume [] = []
calls can_resume (e ∷ es) = on_commit can_resume e.command ++ calls can_resume es

-- The calls that the proposer makes itself, and the cluster.
unfoldable pub propose_halt :
    ℕ → (ℕ → Cluster → Cluster) → String → String → Cluster → List PsaCall × Cluster
propose_halt now asleep reason breach k =
    let (committed, k') = cluster_propose now (halt reason breach) asleep k in
    (if committed then halts reason breach ∷ [] else [], k')

unfoldable pub propose_resume :
    ℕ → (ℕ → Cluster → Cluster) → Bool → String → Cluster → List PsaCall × Cluster
propose_resume now asleep can_resume by k =
    let (committed, k') = cluster_propose now (resume by) asleep k in
    (if committed then (if can_resume then resumes by ∷ [] else []) else [], k')

get_leader-leads : (k : Cluster) (i : NodeId) → get_leader k ≡ some i → is_leader (get i k) ≡ true
unfolding get_leader
get_leader-leads k n0 e = ground arith
get_leader-leads k n1 e = ground arith
get_leader-leads k n2 e = ground arith

calls-append :
    (r : Bool) (es : List LogEntry) (e : LogEntry)
    → calls r (es ++ e ∷ []) ≡ calls r es ++ on_commit r e.command
unfolding calls
calls-append r [] e = append-nil (on_commit r e.command)
calls-append r (x ∷ es) e =
    ap (λ c. on_commit r x.command ++ c) (calls-append r es e)
    ∙ sym (append_assoc (on_commit r x.command) (calls r es) (on_commit r e.command))

module _ (r : Bool) (term : ℕ) (log : List LogEntry) (cmd : Command) (e : LogEntry) where
  node-calls :
      (n n' : Node)
      → Holds term log n
      → Holds term (log ++ e ∷ []) n'
      → calls r n'.delivered ≡ calls r n.delivered ++ on_commit r e.command
  node-calls n n' h h' =
      ap (calls r) h'.handed_on
      ∙ calls-append r log e
      ∙ ap (λ d. calls r d ++ on_commit r e.command) (sym h.handed_on)

route_first :
    (now : ℕ) (cmd : Command) (asleep : ℕ → Cluster → Cluster) (k : Cluster) (i : NodeId)
    → get_leader k ≡ some i
    → (propose now i cmd k).0 ≡ true
    → cluster_propose now cmd asleep k ≡ (true, (propose now i cmd k).1)
unfolding route
route_first now cmd asleep k i g p = rw (g, p)

-- In an undisturbed cluster that has a leader, a proposed halt commits at the first attempt, and
-- the supervisor is told to halt four times: once by each node's `on_commit`, and once more by
-- the proposer.
pub halts_four_times :
    (now wall : ℕ) (xs : List Act) (asleep : ℕ → Cluster → Cluster) (reason breach : String)
    (r : Bool) (i : NodeId)
    → let k = act_all xs (start now) in
      get_leader k ≡ some i
      → let (direct, k') = propose_halt wall asleep reason breach k in
        let once = halts reason breach ∷ [] in
        (direct ≡ once)
        × (calls r k'.a.delivered ≡ calls r k.a.delivered ++ once)
        × (calls r k'.b.delivered ≡ calls r k.b.delivered ++ once)
        × (calls r k'.c.delivered ≡ calls r k.c.delivered ++ once)
unfolding propose_halt on_commit new_entry
halts_four_times now wall xs asleep reason breach r i g =
    let k = act_all xs (start now) in
    let (term, log, h) = nodes_agree now xs in
    let cmd = halt reason breach in
    let e = new_entry cmd (get i k) in
    let m = propose-Agree wall cmd k term log h i (get_leader-leads k i g) in
    let k' = (propose wall i cmd k).1 in
    rw (route_first wall cmd asleep k i g (m.0)) (
      refl,
      node-calls r term log cmd e k.a k'.a h.0 (m.1.0),
      node-calls r term log cmd e k.b k'.b h.1 (m.1.1),
      node-calls r term log cmd e k.c k'.c h.2 (m.1.2),
    )

-- A supervisor without the two resume methods is told nothing by a resume that the cluster has
-- committed on all its nodes: neither the nodes' `on_commit` nor the proposer calls it.
pub resume_is_lost :
    (now wall : ℕ) (xs : List Act) (asleep : ℕ → Cluster → Cluster) (by : String) (i : NodeId)
    → let k = act_all xs (start now) in
      get_leader k ≡ some i
      → let (direct, k') = propose_resume wall asleep false by k in
        (direct ≡ [])
        × (k'.a.log ≡ k.a.log ++ new_entry (resume by) (get i k) ∷ [])
        × (calls false k'.a.delivered ≡ calls false k.a.delivered)
        × (calls false k'.b.delivered ≡ calls false k.b.delivered)
        × (calls false k'.c.delivered ≡ calls false k.c.delivered)
unfolding propose_resume on_commit new_entry
resume_is_lost now wall xs asleep by i g =
    let k = act_all xs (start now) in
    let (term, log, h) = nodes_agree now xs in
    let cmd = resume by in
    let e = new_entry cmd (get i k) in
    let m = propose-Agree wall cmd k term log h i (get_leader-leads k i g) in
    let k' = (propose wall i cmd k).1 in
    rw (route_first wall cmd asleep k i g (m.0)) (
      refl,
      m.1.0.same_log ∙ ap (λ l. l ++ e ∷ []) (sym h.0.same_log),
      node-calls false term log cmd e k.a k'.a h.0 (m.1.0) ∙ append-nil (calls false k.a.delivered),
      node-calls false term log cmd e k.b k'.b h.1 (m.1.1) ∙ append-nil (calls false k.b.delivered),
      node-calls false term log cmd e k.c k'.c h.2 (m.1.2) ∙ append-nil (calls false k.c.delivered),
    )
