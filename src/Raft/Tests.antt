-- ===== src/Raft/Tests.antt =====
-- The cluster at concrete inputs.
use nexus_trading.Base.{◌≤◌, ◌≡◌, refl, true, false, List, [], ◌∷◌, ◌++◌, arith, map}
use nexus_trading.Raft.Node.{
  halt, resume, other_command, LogEntry, init, stand, handle_request_vote, become_leader,
  apply_committed, handle_append_entries, handle_heartbeat, new_entry, is_leader,
}
use nexus_trading.Raft.Cluster.{
  n0, n1, n2, get, start, elect, start_election, election_timer, send_heartbeats, begin,
  replicate_to, conclude, propose, get_leader,
}
use nexus_trading.Raft.Runs.{World, Event, timers, proposes, continues, step, run, fresh}
use nexus_trading.Raft.Leaders.{IsValid, one_leader}
use nexus_trading.Raft.Agreement.{Act, act, act_all, InAgreement, nodes_agree, propose_iff}
use nexus_trading.Raft.Psa.{
  halts, calls, propose_halt, propose_resume, halts_four_times, resume_is_lost,
}
use nexus_trading.Raft.Stale.{late_entry_skipped}

-- Node 0 leads and proposes; node 1 takes the entry; node 2 is elected; node 2 refuses the entry,
-- which is committed all the same; node 2, whose log is empty, proposes.
abbrev overtaken : List Event
overtaken =
    timers 200 150 n0
    ∷ proposes n0 (other_command "first")
    ∷ continues 210 0
    ∷ timers 400 150 n2
    ∷ continues 410 0
    ∷ continues 420 0
    ∷ proposes n2 (other_command "second")
    ∷ continues 430 0
    ∷ continues 440 0
    ∷ continues 450 0
    ∷ []

abbrev after : World
unfolding run step election_timer start_election elect stand handle_request_vote become_leader start
    init begin new_entry replicate_to conclude handle_append_entries apply_committed
after = run overtaken (fresh 0)

-- Both proposals were answered with True; no node has been handed both commands.
overtaken_answers : map (λ r. r.1) after.answers ≡ true ∷ true ∷ []
unfolding run step election_timer start_election elect stand handle_request_vote become_leader start
    init begin new_entry replicate_to conclude handle_append_entries apply_committed
overtaken_answers = refl

overtaken_deliveries :
    (map (λ e. e.command) after.cluster.a.delivered ≡ other_command "first" ∷ [])
    × (map (λ e. e.command) after.cluster.b.delivered ≡ other_command "first" ∷ [])
    × (map (λ e. e.command) after.cluster.c.delivered ≡ other_command "second" ∷ [])
unfolding run step election_timer start_election elect stand handle_request_vote become_leader start
    init begin new_entry replicate_to conclude handle_append_entries apply_committed
overtaken_deliveries = (refl, refl, refl)

one_leader_example : IsValid (run overtaken (fresh 0))
one_leader_example = one_leader 0 overtaken

abbrev calm : List Act
calm = Act.timers 200 150 n1 ∷ Act.proposes 210 n1 (halt "loss" "cap") ∷ Act.heartbeats 220 n1 ∷ []

nodes_agree_example : InAgreement (act_all calm (start 0))
nodes_agree_example = nodes_agree 0 calm

propose_iff_example :
    let k = act_all calm (start 0) in
    let (committed, k') = propose 300 n1 (resume "ops") k in
    (committed ≡ is_leader (get n1 k))
    × ((is_leader (get n1 k) ≡ true)
        → (k'.a.log ≡ k.a.log ++ new_entry (resume "ops") (get n1 k) ∷ [])
          × (k'.b.log ≡ k'.a.log)
          × (k'.c.log ≡ k'.a.log))
    × ((is_leader (get n1 k) ≡ false) → k' ≡ k)
propose_iff_example = propose_iff 0 300 calm n1 (resume "ops")

halts_four_times_case :
    let k = act_all calm (start 0) in
    let (direct, k') = propose_halt 300 (λ r c. c) "loss" "cap" k in
    let once = halts "loss" "cap" ∷ [] in
    (direct ≡ once)
    × (calls true k'.a.delivered ≡ calls true k.a.delivered ++ once)
    × (calls true k'.b.delivered ≡ calls true k.b.delivered ++ once)
    × (calls true k'.c.delivered ≡ calls true k.c.delivered ++ once)
unfolding act_all act election_timer start_election elect stand handle_request_vote become_leader
    start init send_heartbeats handle_heartbeat propose begin new_entry replicate_to conclude
    handle_append_entries apply_committed get_leader
halts_four_times_case = halts_four_times 0 300 calm (λ r c. c) "loss" "cap" true n1 refl

resume_is_lost_case :
    let k = act_all calm (start 0) in
    let (direct, k') = propose_resume 300 (λ r c. c) false "ops" k in
    (direct ≡ [])
    × (k'.a.log ≡ k.a.log ++ new_entry (resume "ops") (get n1 k) ∷ [])
    × (calls false k'.a.delivered ≡ calls false k.a.delivered)
    × (calls false k'.b.delivered ≡ calls false k.b.delivered)
    × (calls false k'.c.delivered ≡ calls false k.c.delivered)
unfolding act_all act election_timer start_election elect stand handle_request_vote become_leader
    start init send_heartbeats handle_heartbeat propose begin new_entry replicate_to conclude
    handle_append_entries apply_committed get_leader
resume_is_lost_case = resume_is_lost 0 300 calm (λ r c. c) "ops" n1 refl

abbrev short_leader_entry : LogEntry
short_leader_entry = record { term = 2; index = 0; command = other_command "second" }

late_entry_skipped_case :
    let n = after.cluster.b in
    let (accepted, n') = handle_append_entries 500 short_leader_entry n in
    (accepted ≡ true)
    × (n'.log ≡ n.log ++ short_leader_entry ∷ [])
    × (n'.delivered ≡ n.delivered)
    × (n'.applied_next ≡ n.applied_next)
    × (n'.commit_next ≤ n.applied_next)
unfolding run step election_timer start_election elect stand handle_request_vote become_leader start
    init begin new_entry replicate_to conclude apply_committed after
late_entry_skipped_case =
    late_entry_skipped 500 short_leader_entry after.cluster.b (omega arith) (omega arith)
