-- ===== src/Governance/Decisions.antt =====
-- What the agent lists for decision, and what an approval and a rejection do.
use nexus_trading.Base.{
  ℕ, ◌≡◌, ◌≢◌, refl, subst, sym, ap, ◌∙◌, true, false, Option, none, some, List, [], ◌∷◌, ◌++◌,
  String, find, store, erase, find-store, find-store_ne, find-erase, find-erase_ne, Bool-cases,
  Option-cases, is_some, ◌⊎◌, inl, inr, text_truthy,
}
use nexus_trading.Governance.Proposals.{
  ChangeProposal, load_pending_proposals, upsert_change_proposal,
}
use nexus_trading.Governance.Agent.{
  Governance, change_proposal, known_proposal, approve, reject, approve_proposal, approve_known,
  reject_proposal, reject_known, get_pending_proposals, first_with, or_else, handle_proposal,
  add_rationale, audit, approved,
}
use nexus_trading.Governance.Tables.{
  IsTable, erase-IsTable, store-IsTable, if_awaiting, if_open, first_with-merged, first_with-rows,
  find-id, first_with-id,
}
use nexus_trading.Governance.Runs.{Op, run, start, IsValid, run-IsValid}

module _ {J : Type 0} where
  listed :
      (id : ℕ) (g : Governance J)
      → IsValid g
      → first_with id (get_pending_proposals g) ≡ if_awaiting (known_proposal id g)
  unfolding get_pending_proposals known_proposal load_pending_proposals
  listed id g h = first_with-merged id g.pending_proposals g.rows h.memory h.table

  -- Whatever has reached the agent since its start on a store with one row for an id: under every
  -- id it lists for decision exactly the proposal that an approval of that id would act on, and
  -- only if that proposal awaits a decision.
  pub pending_lem :
      (rows : List (ℕ × ChangeProposal J)) (os : List (Op J)) (id : ℕ)
      → IsTable rows
      → let g = run os (start rows) in
        first_with id (get_pending_proposals g) ≡ if_awaiting (known_proposal id g)
  unfolding start
  pending_lem rows os id h =
      listed id _ (run-IsValid os (start rows) (record { memory = tt; table = h }))

  known :
      (g : Governance J) (id : ℕ)
      → IsValid g
      → known_proposal id g ≡ or_else (find g.pending_proposals id) (if_open (find g.rows id))
  unfolding known_proposal load_pending_proposals
  known g id h = ap (or_else (find g.pending_proposals id)) (first_with-rows id g.rows h.table)

  or_else-id :
      (id : ℕ) (a b : Option (ChangeProposal J)) (p : ChangeProposal J)
      → ((q : ChangeProposal J) → a ≡ some q → q.proposal_id ≡ id)
      → ((q : ChangeProposal J) → b ≡ some q → q.proposal_id ≡ id)
      → or_else a b ≡ some p
      → p.proposal_id ≡ id
  or_else-id id none b p f g e = g p e
  or_else-id id (some q) b p f g e = f p e

  known-id :
      (g : Governance J) (id : ℕ) (p : ChangeProposal J)
      → IsValid g
      → known_proposal id g ≡ some p
      → p.proposal_id ≡ id
  unfolding known_proposal
  known-id g id p h e =
      or_else-id id _ _ p (λ q. find-id g.pending_proposals id q h.memory)
        (λ q. first_with-id id (load_pending_proposals g.rows) q) e

  -- What a lookup finds after a decision q on the proposal with an id.
  abbrev decided : ℕ → ChangeProposal J → Governance J → Governance J
  decided id q g = record g {
    rows = upsert_change_proposal q g.rows;
    pending_proposals = erase g.pending_proposals id;
  }

  decided-known :
      (id : ℕ) (q : ChangeProposal J) (g : Governance J)
      → IsValid g
      → q.proposal_id ≡ id
      → IsValid (decided id q g)
        × (known_proposal id (decided id q g) ≡ if_open (some q))
        × ((other : ℕ)
            → id ≢ other
            → known_proposal other (decided id q g) ≡ known_proposal other g)
  unfolding upsert_change_proposal
  decided-known id q g h same =
      let v : IsValid (decided id q g) = record {
        memory = erase-IsTable g.pending_proposals id h.memory;
        table = store-IsTable g.rows q h.table;
      } in
      let d = decided id q g in
      (
        v,
        known d id v
            ∙ ap (λ a. or_else a (if_open (find d.rows id))) (find-erase g.pending_proposals id)
            ∙ ap if_open (
                subst (λ k. find (store g.rows k q) id ≡ some q) (sym same)
                  (find-store g.rows id q)),
        λ other apart.
            known d other v
            ∙ ap (λ a. or_else a (if_open (find d.rows other)))
                (find-erase_ne g.pending_proposals id other apart)
            ∙ ap (λ b. or_else (find g.pending_proposals other) (if_open b))
                (subst (λ k. find (store g.rows k q) other ≡ find g.rows other) (sym same)
                  (find-store_ne g.rows id other q apart))
            ∙ sym (known g other h),
      )

  rationale-rows :
      (id : ℕ) (approver rationale : String) (g : Governance J)
      → ((add_rationale id approver rationale g).rows ≡ g.rows)
        × ((add_rationale id approver rationale g).pending_proposals ≡ g.pending_proposals)
        × ((add_rationale id approver rationale g).sent ≡ g.sent)
  rationale-rows id approver rationale g = elim (Bool-cases (text_truthy (some rationale))) [
    | inl e ↦ rw e (refl, refl, refl)
    | inr e ↦ rw e (refl, refl, refl)
  ]

  -- Two agents with the same tables find the same.
  same_tables :
      (id : ℕ) (g g' : Governance J)
      → g'.rows ≡ g.rows
      → g'.pending_proposals ≡ g.pending_proposals
      → known_proposal id g' ≡ known_proposal id g
  unfolding known_proposal
  same_tables id g g' r p =
      ap (λ d. or_else (find d id) (first_with id (load_pending_proposals g'.rows))) p
      ∙ ap (λ d. or_else (find g.pending_proposals id) (first_with id (load_pending_proposals d))) r

  approve_parts :
      (now id : ℕ) (approver rationale : String) (g : Governance J)
      → IsValid g
      → let (done, g') = approve_proposal now id approver rationale g in
        (known_proposal id g ≡ none → (done ≡ false) × (g' ≡ g))
        × ((p : ChangeProposal J)
            → known_proposal id g ≡ some p
            → let q = approve now approver p in
              (done ≡ true)
              × (known_proposal id g' ≡ some q)
              × ((other : ℕ) → id ≢ other → known_proposal other g' ≡ known_proposal other g)
              × (g'.sent ≡ g.sent ++ change_proposal q ∷ [])
              × (handle_proposal (some q) g' ≡ g'))
  unfolding approve_proposal approve handle_proposal
  approve_parts now id approver rationale g h = (
    λ e. rw e (refl, refl),
    λ p e.
        let q = approve now approver p in
        let d = decided-known id q g h (known-id g id p h e) in
        let base = audit (approved approver id q.proposal_type) (decided id q g) in
        let r = rationale-rows id approver rationale base in
        let g' = (approve_known now id approver rationale (some p) g).1 in
        let same : (k : ℕ) → known_proposal k g' ≡ known_proposal k (decided id q g) =
          λ k. same_tables k (decided id q g) g' r.0 (r.1) in
        rw e (
          refl,
          same id ∙ d.1,
          λ other apart. same other ∙ (d.2) other apart,
          ap (λ m. m ++ change_proposal q ∷ []) (r.2),
          refl,
        ),
  )

  reject_parts :
      (now id : ℕ) (approver reason : String) (g : Governance J)
      → IsValid g
      → let (done, g') = reject_proposal now id approver reason g in
        (find g.pending_proposals id ≡ none → (done ≡ false) × (g' ≡ g))
        × ((p : ChangeProposal J)
            → find g.pending_proposals id ≡ some p
            → (done ≡ true)
              × (g'.sent ≡ g.sent)
              × (known_proposal id g' ≡ none)
              × ((other : ℕ) → id ≢ other → known_proposal other g' ≡ known_proposal other g))
  unfolding reject_proposal reject
  reject_parts now id approver reason g h = (
    λ e. rw e (refl, refl),
    λ p e.
        let q = reject now reason p in
        let d = decided-known id q g h (find-id g.pending_proposals id p h.memory e) in
        let g' = (reject_known now id approver reason (some p) g).1 in
        let same : (k : ℕ) → known_proposal k g' ≡ known_proposal k (decided id q g) =
          λ k. same_tables k (decided id q g) g' refl refl in
        rw e (refl, refl, same id ∙ d.1, λ other apart. same other ∙ (d.2) other apart),
  )

  -- A rejection of an id that is not in memory returns False and changes nothing, whatever the
  -- store holds. Otherwise it returns True, nothing is sent, the id is found no more, neither in
  -- memory nor among the open ones of the store, and every other id finds what it found before.
  pub reject_lem :
      (now id : ℕ) (approver reason : String) (g : Governance J)
      → IsValid g
      → let (done, g') = reject_proposal now id approver reason g in
        ((find g.pending_proposals id ≡ none) × (done ≡ false) × (g' ≡ g))
        ⊎ ((is_some (find g.pending_proposals id) ≡ true)
            × (done ≡ true)
            × (g'.sent ≡ g.sent)
            × (known_proposal id g' ≡ none)
            × ((other : ℕ) → id ≢ other → known_proposal other g' ≡ known_proposal other g))
  reject_lem now id approver reason g h =
      let (unknown, found) = reject_parts now id approver reason g h in
      elim (Option-cases (find g.pending_proposals id)) [
        | inl e ↦ inl (e, (unknown e).0, (unknown e).1)
        | inr (p, e) ↦
            let (done, sent, gone, others) = found p e in
            inr (ap is_some e, done, sent, gone, others)
      ]

  -- After a restart of the process, a proposal that the store still holds open can be approved and
  -- not rejected: the rejection returns False and changes nothing, the approval of the same id
  -- returns True.
  pub rejection_lost :
      (rows : List (ℕ × ChangeProposal J)) (now id : ℕ) (who why : String) (p : ChangeProposal J)
      → IsTable rows
      → first_with id (load_pending_proposals rows) ≡ some p
      → (reject_proposal now id who why (start rows) ≡ (false, start rows))
        × ((approve_proposal now id who why (start rows)).0 ≡ true)
  unfolding start reject_proposal known_proposal
  rejection_lost rows now id who why p h e =
      let v : IsValid (start rows) = record { memory = tt; table = h } in
      (refl, ((approve_parts now id who why (start rows) v).1 p e).0)
