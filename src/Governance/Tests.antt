-- ===== src/Governance/Tests.antt =====
-- Concrete runs of the governance agent.
use nexus_trading.Base.{
  ℕ, ◌≡◌, ◌≢◌, refl, true, false, none, some, List, [], ◌∷◌, ◌++◌, find, text_truthy, is_some, ◌⊎◌,
  ◌&&◌,
}
use nexus_trading.Governance.Proposals.{
  ChangeProposal, parameter_tweak, awaiting_hgl, edge_passed, load_pending_proposals,
  upsert_change_proposal,
}
use nexus_trading.Governance.Agent.{
  Governance, Message, resume_command, restart_authorized, known_proposal, approve_proposal,
  reject_proposal, approve, get_pending_proposals, first_with, authorize_system_restart,
}
use nexus_trading.Governance.Tables.{if_awaiting}
use nexus_trading.Governance.Runs.{receives, approves, rejects, run, start, IsValid}
use nexus_trading.Governance.Decisions.{pending_lem, reject_lem, rejection_lost}
use nexus_trading.Governance.Restart.{restart_lem, to_supervisor}
use nexus_trading.Supervisor.State.{halted, trading, same_system}
use nexus_trading.Supervisor.Trades.{process}
use nexus_trading.Supervisor.Tests.{cents, config, ready}

-- A proposal whose changes are a number.
abbrev tweak : ℕ → ChangeProposal ℕ
tweak id = record {
  proposal_id = id;
  proposal_type = parameter_tweak;
  status = awaiting_hgl;
  submitted_by = "PSRA";
  proposed_for_session = none;
  description = "smaller size";
  parameter_changes = 100;
  hgl_approved_by = none;
  hgl_approved_at = none;
  hgl_rejection_reason = none;
  edge_validation_result = none;
  edge_rejection_reason = none;
  created_at = 1;
  updated_at = 1;
}

-- One proposal that awaits a decision, and one that has passed its validation already.
abbrev table : List (ℕ × ChangeProposal ℕ)
table = (7, tweak 7) ∷ (8, record (tweak 8) { status = edge_passed }) ∷ []

abbrev agent : Governance ℕ
agent = record {
  pending_proposals = (9, tweak 9) ∷ [];
  approved_changes = [];
  rows = table;
  audited = [];
  sent = [];
}

agent-IsValid : IsValid agent
agent-IsValid = record { memory = (refl, refl, tt); table = (refl, refl, (refl, refl, tt)) }

listed_after : get_pending_proposals (run (approves 5 7 "ann" "fine" ∷ []) agent) ≡ tweak 9 ∷ []
unfolding get_pending_proposals run approve_proposal known_proposal load_pending_proposals approve
    upsert_change_proposal
listed_after = refl

pending_lem_example :
    let g = run (receives (some (tweak 9)) ∷ rejects 5 9 "ann" "no" ∷ []) (start table) in
    first_with 7 (get_pending_proposals g) ≡ if_awaiting (known_proposal 7 g)
pending_lem_example =
    pending_lem table (receives (some (tweak 9)) ∷ rejects 5 9 "ann" "no" ∷ []) 7
      (refl, refl, (refl, refl, tt))

reject_lem_case :
    let (done, g') = reject_proposal 5 9 "ann" "no" agent in
    ((find agent.pending_proposals 9 ≡ none) × (done ≡ false) × (g' ≡ agent))
    ⊎ ((is_some (find agent.pending_proposals 9) ≡ true)
        × (done ≡ true)
        × (g'.sent ≡ [])
        × (known_proposal 9 g' ≡ none)
        × ((other : ℕ) → 9 ≢ other → known_proposal other g' ≡ known_proposal other agent))
reject_lem_case = reject_lem 5 9 "ann" "no" agent agent-IsValid

rejection_lost_case :
    (reject_proposal 5 7 "ann" "no" (start table) ≡ (false, start table))
    × ((approve_proposal 5 7 "ann" "no" (start table)).0 ≡ true)
unfolding load_pending_proposals
rejection_lost_case =
    rejection_lost table 5 7 "ann" "no" (tweak 7) (refl, refl, (refl, refl, tt)) refl

restart_lem_example :
    let g' = authorize_system_restart 5 "ann" "checked" agent in
    let m : Message ℕ = resume_command "ann" "checked" in
    let s = record ready { system_state = halted; anomaly_hold = true } in
    let s' = process cents config 6 (to_supervisor cents m) s in
    let clears = same_system halted halted && text_truthy (some "ann") in
    (g'.sent ≡ [] ++ m ∷ [])
    × (g'.audited ≡ [] ++ restart_authorized "ann" "checked" 5 ∷ [])
    × (((clears ≡ true)
          × (s'.system_state ≡ trading)
          × (s'.halt_reason ≡ none)
          × (s'.anomaly_hold ≡ false))
        ⊎ ((clears ≡ false) × (s' ≡ s)))
restart_lem_example =
    restart_lem config 5 6 "ann" "checked" agent
      (record ready { system_state = halted; anomaly_hold = true })
