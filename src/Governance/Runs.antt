-- ===== src/Governance/Runs.antt =====
-- What reaches the governance agent, in any order, and what its tables keep.
use nexus_trading.Base.{
  ℕ, Option, none, some, List, [], ◌∷◌, String, text_truthy, Bool-cases, inl, inr,
}
use nexus_trading.Governance.Proposals.{
  ChangeProposal, awaiting_hgl, same_status, upsert_change_proposal,
}
use nexus_trading.Governance.Agent.{
  Governance, handle_proposal, handle_halt_notification, approve_proposal, approve_known,
  reject_proposal, reject_known, authorize_system_restart, sign_off_shadow_criteria, approve,
  reject,
}
use nexus_trading.Governance.Tables.{IsTable, store-IsTable, erase-IsTable}

module _ (J : Type 0) where
  -- A message, or a call of one of the four methods, and its time.
  pub data Op : Type 0 where
    receives : Option (ChangeProposal J) → Op
    notified : ℕ → Option String → Op
    approves rejects : ℕ → ℕ → String → String → Op
    restarts signs_off : ℕ → String → String → Op

module _ {J : Type 0} where
  unfoldable pub step : Op J → Governance J → Governance J
  step (receives p) g = handle_proposal p g
  step (notified now reason) g = handle_halt_notification now reason g
  step (approves now id approver rationale) g = (approve_proposal now id approver rationale g).1
  step (rejects now id approver reason) g = (reject_proposal now id approver reason g).1
  step (restarts now approver reason) g = authorize_system_restart now approver reason g
  step (signs_off now approver criteria) g = sign_off_shadow_criteria now approver criteria g

  unfoldable pub run : List (Op J) → Governance J → Governance J
  unfolding step
  run [] g = g
  run (o ∷ os) g = run os (step o g)

  -- An agent that starts: nothing in memory, and the rows that the store has.
  unfoldable pub start : List (ℕ × ChangeProposal J) → Governance J
  start rows = record {
    pending_proposals = [];
    approved_changes = [];
    rows = rows;
    audited = [];
    sent = [];
  }

  pub record IsValid (g : Governance J) : Type 0 where
    pub memory : IsTable g.pending_proposals
    pub table : IsTable g.rows

  proposal-IsValid :
      (p : Option (ChangeProposal J)) (g : Governance J) → IsValid g → IsValid (handle_proposal p g)
  unfolding handle_proposal
  proposal-IsValid none g h = h
  proposal-IsValid (some p) g h = elim (Bool-cases (same_status p.status awaiting_hgl)) [
    | inl e ↦ rw e (record { memory = store-IsTable _ p h.memory; table = h.table })
    | inr e ↦ rw e h
  ]

  approved-IsValid :
      (now id : ℕ) (approver rationale : String) (p : Option (ChangeProposal J)) (g : Governance J)
      → IsValid g
      → IsValid (approve_known now id approver rationale p g).1
  unfolding upsert_change_proposal
  approved-IsValid now id approver rationale none g h = h
  approved-IsValid now id approver rationale (some p) g h =
      let memory = erase-IsTable g.pending_proposals id h.memory in
      let table = store-IsTable g.rows (approve now approver p) h.table in
      elim (Bool-cases (text_truthy (some rationale))) [
        | inl e ↦ rw e (record { memory = memory; table = table })
        | inr e ↦ rw e (record { memory = memory; table = table })
      ]

  rejected-IsValid :
      (now id : ℕ) (approver reason : String) (p : Option (ChangeProposal J)) (g : Governance J)
      → IsValid g
      → IsValid (reject_known now id approver reason p g).1
  unfolding upsert_change_proposal
  rejected-IsValid now id approver reason none g h = h
  rejected-IsValid now id approver reason (some p) g h = record {
    memory = erase-IsTable g.pending_proposals id h.memory;
    table = store-IsTable g.rows (reject now reason p) h.table;
  }

  step-IsValid : (o : Op J) (g : Governance J) → IsValid g → IsValid (step o g)
  unfolding step approve_proposal reject_proposal handle_halt_notification authorize_system_restart
      sign_off_shadow_criteria
  step-IsValid (receives p) g h = proposal-IsValid p g h
  step-IsValid (notified now reason) g h = record { memory = h.memory; table = h.table }
  step-IsValid (approves now id a r) g h = approved-IsValid now id a r _ g h
  step-IsValid (rejects now id a r) g h = rejected-IsValid now id a r _ g h
  step-IsValid (restarts now a r) g h = record { memory = h.memory; table = h.table }
  step-IsValid (signs_off now a c) g h = record { memory = h.memory; table = h.table }

  pub run-IsValid : (os : List (Op J)) (g : Governance J) → IsValid g → IsValid (run os g)
  unfolding run
  run-IsValid [] g h = h
  run-IsValid (o ∷ os) g h = run-IsValid os (step o g) (step-IsValid o g h)
