-- ===== src/Governance/Proposals.antt =====
-- core/models.py: ChangeProposal; infrastructure/state_store.py: the table change_proposals.
use nexus_trading.Base.{
  ℕ, ◌==◌, ◌||◌, Bool, not, Option, List, [], ◌∷◌, String, values, store, if◌then◌else◌,
}

pub data ProposalType : Type 0 where
  parameter_tweak setup_modification setup_retirement new_setup_addition : ProposalType

pub data Status : Type 0 where
  proposed awaiting_hgl hgl_approved hgl_rejected : Status
  edge_validating edge_passed edge_failed live : Status

abbrev pub number : Status → ℕ
number proposed = 0
number awaiting_hgl = 1
number hgl_approved = 2
number hgl_rejected = 3
number edge_validating = 4
number edge_passed = 5
number edge_failed = 6
number live = 7

-- `a == b`
abbrev pub same_status : Status → Status → Bool
same_status a b = number a == number b

-- Ids are only compared, and times too; the changes are a value of any type.
pub record ChangeProposal (Changes : Type 0) : Type 0 where
  pub proposal_id : ℕ
  pub proposal_type : ProposalType
  pub status : Status
  pub submitted_by : String
  pub proposed_for_session : Option String
  pub description : String
  pub parameter_changes : Changes
  pub hgl_approved_by : Option String
  pub hgl_approved_at : Option ℕ
  pub hgl_rejection_reason : Option String
  pub edge_validation_result : Option String
  pub edge_rejection_reason : Option String
  pub created_at : ℕ
  pub updated_at : ℕ

-- The condition of the query in `load_pending_proposals`.
abbrev pub is_open : Status → Bool
is_open s = not (same_status s live || (same_status s hgl_rejected || same_status s edge_failed))

module _ {J : Type 0} where
  -- `upsert_change_proposal`: one row for an id
  unfoldable pub upsert_change_proposal :
      ChangeProposal J → List (ℕ × ChangeProposal J) → List (ℕ × ChangeProposal J)
  upsert_change_proposal p rows = store rows p.proposal_id p

  abbrev pub open_ones : List (ChangeProposal J) → List (ChangeProposal J)
  open_ones [] = []
  open_ones (p ∷ ps) = if is_open p.status then p ∷ open_ones ps else open_ones ps

  -- `load_pending_proposals`
  unfoldable pub load_pending_proposals : List (ℕ × ChangeProposal J) → List (ChangeProposal J)
  load_pending_proposals rows = open_ones (values rows)
