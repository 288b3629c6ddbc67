-- ===== src/Governance/Agent.antt =====
-- class HumanGovernanceAgent: its fields, its two handlers, and what people call.
use nexus_trading.Base.{
  ℕ, ◌==◌, Bool, true, false, not, Option, none, some, List, [], ◌∷◌, ◌++◌, String, find, store,
  erase, values, elem, text_truthy, if◌then◌else◌,
}
use nexus_trading.Governance.Proposals.{
  ChangeProposal, ProposalType, awaiting_hgl, hgl_approved, hgl_rejected, same_status,
  upsert_change_proposal, load_pending_proposals,
}

pub data AuditEvent : Type 0 where
  proposal_received : ℕ → ProposalType → String → AuditEvent
  halt_notified : String → ℕ → AuditEvent
  -- approver, proposal, type
  approved : String → ℕ → ProposalType → AuditEvent
  approval_rationale : ℕ → String → String → AuditEvent
  rejected : ℕ → String → String → AuditEvent
  -- approver, reason, time
  restart_authorized : String → String → ℕ → AuditEvent
  shadow_criteria_signed_off : String → String → ℕ → AuditEvent

pub record ApprovedChange : Type 0 where
  pub proposal_id : ℕ
  pub type : ProposalType
  pub approver : String
  pub approved_at : ℕ
  pub rationale : String

module _ (J : Type 0) where
  pub data Message : Type 0 where
    -- CHANGE_PROPOSAL
    change_proposal : ChangeProposal J → Message
    -- SYSTEM_STATE with the command "resume": approved_by, reason
    resume_command : String → String → Message

  -- The agent, the rows of the store, and what it has sent and recorded, the newest last.
  pub record Governance : Type 0 where
    pub pending_proposals : List (ℕ × ChangeProposal J)
    pub approved_changes : List ApprovedChange
    pub rows : List (ℕ × ChangeProposal J)
    pub audited : List AuditEvent
    pub sent : List Message

module _ {J : Type 0} where
  abbrev pub audit : AuditEvent → Governance J → Governance J
  audit e g = record g { audited = g.audited ++ e ∷ [] }

  abbrev pub publish : Message J → Governance J → Governance J
  publish m g = record g { sent = g.sent ++ m ∷ [] }

  -- `_handle_proposal`, given none when the payload does not validate.
  unfoldable pub handle_proposal : Option (ChangeProposal J) → Governance J → Governance J
  handle_proposal none g = g
  handle_proposal (some p) g =
      if not (same_status p.status awaiting_hgl)
      then g
      else audit (proposal_received p.proposal_id p.proposal_type p.description)
          (record g { pending_proposals = store g.pending_proposals p.proposal_id p })

  -- `_handle_halt_notification`
  unfoldable pub handle_halt_notification : ℕ → Option String → Governance J → Governance J
  handle_halt_notification now reason g =
      audit (halt_notified (elim reason [ none ↦ "unknown" | some r ↦ r ]) now) g

  -- The first of the list with an id.
  abbrev pub first_with : ℕ → List (ChangeProposal J) → Option (ChangeProposal J)
  first_with id [] = none
  first_with id (p ∷ ps) = if p.proposal_id == id then some p else first_with id ps

  abbrev pub or_else :
      Option (ChangeProposal J) → Option (ChangeProposal J) → Option (ChangeProposal J)
  or_else none other = other
  or_else (some p) other = some p

  -- The proposal that an approval finds: in memory, or else among the open ones of the store.
  unfoldable pub known_proposal : ℕ → Governance J → Option (ChangeProposal J)
  known_proposal id g =
      or_else (find g.pending_proposals id) (first_with id (load_pending_proposals g.rows))

  -- The assignments of an approval and of a rejection.
  unfoldable pub approve : ℕ → String → ChangeProposal J → ChangeProposal J
  approve now approver p = record p {
    status = hgl_approved;
    hgl_approved_by = some approver;
    hgl_approved_at = some now;
    updated_at = now;
  }

  unfoldable pub reject : ℕ → String → ChangeProposal J → ChangeProposal J
  reject now reason p = record p {
    status = hgl_rejected;
    hgl_rejection_reason = some reason;
    updated_at = now;
  }

  abbrev pub add_rationale : ℕ → String → String → Governance J → Governance J
  add_rationale id approver rationale g =
      if text_truthy (some rationale) then audit (approval_rationale id approver rationale) g else g

  abbrev pub approve_known :
      ℕ → ℕ → String → String → Option (ChangeProposal J) → Governance J → Bool × Governance J
  approve_known now id approver rationale none g = (false, g)
  approve_known now id approver rationale (some p) g =
      let q = approve now approver p in
      let stored = record g {
        rows = upsert_change_proposal q g.rows;
        pending_proposals = erase g.pending_proposals id;
      } in
      let recorded =
        add_rationale id approver rationale (audit (approved approver id q.proposal_type) stored) in
      let forwarded = publish (change_proposal q) recorded in
      (
        true,
        record forwarded {
          approved_changes =
              forwarded.approved_changes
              ++ record {
                proposal_id = id;
                type = q.proposal_type;
                approver = approver;
                approved_at = now;
                rationale = rationale;
              }
                ∷ [];
        },
      )

  -- `approve_proposal`
  unfoldable pub approve_proposal : ℕ → ℕ → String → String → Governance J → Bool × Governance J
  approve_proposal now id approver rationale g =
      approve_known now id approver rationale (known_proposal id g) g

  abbrev pub reject_known :
      ℕ → ℕ → String → String → Option (ChangeProposal J) → Governance J → Bool × Governance J
  reject_known now id approver reason none g = (false, g)
  reject_known now id approver reason (some p) g = (
    true,
    audit (rejected id approver reason) (record g {
      rows = upsert_change_proposal (reject now reason p) g.rows;
      pending_proposals = erase g.pending_proposals id;
    }),
  )

  -- `reject_proposal`
  unfoldable pub reject_proposal : ℕ → ℕ → String → String → Governance J → Bool × Governance J
  reject_proposal now id approver reason g =
      reject_known now id approver reason (find g.pending_proposals id) g

  -- `authorize_system_restart`
  unfoldable pub authorize_system_restart : ℕ → String → String → Governance J → Governance J
  authorize_system_restart now approver reason g =
      publish (resume_command approver reason) (audit (restart_authorized approver reason now) g)

  -- `sign_off_shadow_criteria`; the criteria as their text
  unfoldable pub sign_off_shadow_criteria : ℕ → String → String → Governance J → Governance J
  sign_off_shadow_criteria now approver criteria g =
      audit (shadow_criteria_signed_off approver criteria now) g

  abbrev pub ids : List (ChangeProposal J) → List ℕ
  ids [] = []
  ids (p ∷ ps) = p.proposal_id ∷ ids ps

  -- `[p for p in ps if p.proposal_id not in seen]`
  abbrev pub unseen : List ℕ → List (ChangeProposal J) → List (ChangeProposal J)
  unseen seen [] = []
  unseen seen (p ∷ ps) = if elem p.proposal_id seen then unseen seen ps else p ∷ unseen seen ps

  -- `[p for p in ps if p.status == AWAITING_HGL]`
  abbrev pub awaiting : List (ChangeProposal J) → List (ChangeProposal J)
  awaiting [] = []
  awaiting (p ∷ ps) = if same_status p.status awaiting_hgl then p ∷ awaiting ps else awaiting ps

  -- `get_pending_proposals`
  unfoldable pub get_pending_proposals : Governance J → List (ChangeProposal J)
  get_pending_proposals g =
      let from_memory = values g.pending_proposals in
      awaiting (from_memory ++ unseen (ids from_memory) (load_pending_proposals g.rows))
