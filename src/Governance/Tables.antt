-- ===== src/Governance/Tables.antt =====
-- Tables of proposals by id, and the lookups in them.
use nexus_trading.Base.{
  ℕ, ◌==◌, ◌≡◌, ◌≢◌, refl, subst, sym, ap, ◌∙◌, inl, inr, true, false, Option, none, some, List, [],
  ◌∷◌, ◌++◌, find, store, erase, values, elem, is_some, if◌then◌else◌, Bool-cases, find-store_ne,
  find-erase_ne, arith, ==_iff,
}
use nexus_trading.Governance.Proposals.{
  ChangeProposal, awaiting_hgl, same_status, open_ones, is_open,
}
use nexus_trading.Governance.Agent.{first_with, or_else, ids, unseen, awaiting}

module _ {J : Type 0} where
  -- Each entry stands under its own id, and no id twice.
  abbrev pub IsTable : List (ℕ × ChangeProposal J) → Type 0
  IsTable [] = Unit {0}
  IsTable ((k, p) ∷ rest) = (p.proposal_id ≡ k) × (find rest k ≡ none) × IsTable rest

  pub store-IsTable :
      (d : List (ℕ × ChangeProposal J)) (p : ChangeProposal J)
      → IsTable d
      → IsTable (store d p.proposal_id p)
  store-IsTable [] p h = (refl, refl, tt)
  store-IsTable ((k, v) ∷ rest) p h = elim (Bool-cases (k == p.proposal_id)) [
    | inl e ↦ rw e (sym ((==_iff k p.proposal_id).0 e), h.1, h.2)
    | inr e ↦
        let apart : p.proposal_id ≢ k = λ q. ground (arith, e, q) in
        rw e (h.0, find-store_ne rest _ _ p apart ∙ h.1, store-IsTable rest p (h.2))
  ]

  pub erase-IsTable :
      (d : List (ℕ × ChangeProposal J)) (key : ℕ) → IsTable d → IsTable (erase d key)
  erase-IsTable [] key h = h
  erase-IsTable ((k, v) ∷ rest) key h = elim (Bool-cases (k == key)) [
    | inl e ↦ rw e (erase-IsTable rest key (h.2))
    | inr e ↦
        let apart : key ≢ k = λ q. ground (arith, e, q) in
        rw e (h.0, find-erase_ne rest key k apart ∙ h.1, erase-IsTable rest key (h.2))
  ]

  pub find-id :
      (d : List (ℕ × ChangeProposal J)) (key : ℕ) (p : ChangeProposal J)
      → IsTable d
      → find d key ≡ some p
      → p.proposal_id ≡ key
  find-id [] key p h e = absurd (ground (arith, e))
  find-id ((k, v) ∷ rest) key p h e = elim (Bool-cases (k == key)) [
    | inl q ↦ ground (arith, q, e, h.0)
    | inr q ↦ find-id rest key p (h.2) (ground (arith, q, e))
  ]

  first_with-values :
      (d : List (ℕ × ChangeProposal J)) (key : ℕ)
      → IsTable d
      → first_with key (values d) ≡ find d key
  first_with-values [] key h = refl
  first_with-values ((k, v) ∷ rest) key h = rw (h.0, first_with-values rest key (h.2))

  -- No id twice.
  abbrev Distinct : List (ChangeProposal J) → Type 0
  Distinct [] = Unit {0}
  Distinct (p ∷ ps) = (first_with p.proposal_id ps ≡ none) × Distinct ps

  values-Distinct : (d : List (ℕ × ChangeProposal J)) → IsTable d → Distinct (values d)
  values-Distinct [] h = tt
  values-Distinct ((k, v) ∷ rest) h =
      (rw (h.0) (first_with-values rest k (h.2) ∙ h.1), values-Distinct rest (h.2))

  -- `first_with` over the lists that are put together.
  first_with-append :
      (key : ℕ) (ps qs : List (ChangeProposal J))
      → first_with key (ps ++ qs) ≡ or_else (first_with key ps) (first_with key qs)
  first_with-append key [] qs = refl
  first_with-append key (p ∷ ps) qs = elim (Bool-cases (p.proposal_id == key)) [
    | inl e ↦ rw e refl
    | inr e ↦ rw e (first_with-append key ps qs)
  ]

  first_with-unseen :
      (key : ℕ) (seen : List ℕ) (ps : List (ChangeProposal J))
      → first_with key (unseen seen ps) ≡ (if elem key seen then none else first_with key ps)
  first_with-unseen key seen [] = ground arith
  first_with-unseen key seen (p ∷ ps) = ground (arith, first_with-unseen key seen ps)

  elem-ids :
      (key : ℕ) (ps : List (ChangeProposal J)) → elem key (ids ps) ≡ is_some (first_with key ps)
  elem-ids key [] = refl
  elem-ids key (p ∷ ps) = ground (arith, elem-ids key ps)

  abbrev pub if_awaiting : Option (ChangeProposal J) → Option (ChangeProposal J)
  if_awaiting none = none
  if_awaiting (some p) = if same_status p.status awaiting_hgl then some p else none

  first_with-awaiting :
      (key : ℕ) (ps : List (ChangeProposal J))
      → Distinct ps
      → first_with key (awaiting ps) ≡ if_awaiting (first_with key ps)
  first_with-awaiting key [] h = refl
  first_with-awaiting key (p ∷ ps) h = ground (arith, first_with-awaiting key ps (h.1), h.0)

  abbrev pub if_open : Option (ChangeProposal J) → Option (ChangeProposal J)
  if_open none = none
  if_open (some p) = if is_open p.status then some p else none

  filtered_head :
      (p : ChangeProposal J) (ps : List (ChangeProposal J)) (key : ℕ)
      → (p.proposal_id == key) ≡ true
      → first_with key (open_ones ps) ≡ none
      → first_with key (open_ones (p ∷ ps)) ≡ if_open (first_with key (p ∷ ps))
  filtered_head p ps key same gone = elim (Bool-cases (is_open p.status)) [
    | inl e ↦ rw (e, same) (rw e refl)
    | inr e ↦ rw (e, same) (rw e gone)
  ]

  filtered_other :
      (p : ChangeProposal J) (ps : List (ChangeProposal J)) (key : ℕ)
      → (p.proposal_id == key) ≡ false
      → first_with key (open_ones ps) ≡ if_open (first_with key ps)
      → first_with key (open_ones (p ∷ ps)) ≡ if_open (first_with key (p ∷ ps))
  filtered_other p ps key other rest = elim (Bool-cases (is_open p.status)) [
    | inl e ↦ rw (e, other) rest
    | inr e ↦ rw (e, other) rest
  ]

  first_with-open_ones :
      (key : ℕ) (ps : List (ChangeProposal J))
      → Distinct ps
      → first_with key (open_ones ps) ≡ if_open (first_with key ps)
  first_with-open_ones key [] h = refl
  first_with-open_ones key (p ∷ ps) h =
      let rest = first_with-open_ones key ps (h.1) in
      elim (Bool-cases (p.proposal_id == key)) [
        | inl same ↦
            let gone : first_with key ps ≡ none =
              subst (λ k. first_with k ps ≡ none) ((==_iff p.proposal_id key).0 same) h.0 in
            filtered_head p ps key same (rest ∙ ap if_open gone)
        | inr other ↦ filtered_other p ps key other rest
      ]

  open_ones-Distinct : (ps : List (ChangeProposal J)) → Distinct ps → Distinct (open_ones ps)
  open_ones-Distinct [] h = tt
  open_ones-Distinct (p ∷ ps) h = elim (Bool-cases (is_open p.status)) [
    | inl e ↦
        let gone = first_with-open_ones p.proposal_id ps (h.1) ∙ ap if_open h.0 in
        rw e (gone, open_ones-Distinct ps (h.1))
    | inr e ↦ rw e (open_ones-Distinct ps (h.1))
  ]

  unseen-Distinct :
      (seen : List ℕ) (ps : List (ChangeProposal J)) → Distinct ps → Distinct (unseen seen ps)
  unseen-Distinct seen [] h = tt
  unseen-Distinct seen (p ∷ ps) h = elim (Bool-cases (elem p.proposal_id seen)) [
    | inl e ↦ rw e (unseen-Distinct seen ps (h.1))
    | inr e ↦
        let gone : first_with p.proposal_id (unseen seen ps) ≡ none =
          ground (arith, first_with-unseen p.proposal_id seen ps, h.0) in
        rw e (gone, unseen-Distinct seen ps (h.1))
  ]

  append-Distinct :
      (ps qs : List (ChangeProposal J))
      → Distinct ps
      → Distinct qs
      → ((key : ℕ) → elem key (ids ps) ≡ true → first_with key qs ≡ none)
      → Distinct (ps ++ qs)
  append-Distinct [] qs h g apart = g
  append-Distinct (p ∷ ps) qs h g apart = (
    first_with-append p.proposal_id ps qs
        ∙ ap (λ o. or_else o (first_with p.proposal_id qs)) h.0
        ∙ apart p.proposal_id (ground arith),
    append-Distinct ps qs (h.1) g (λ key e. apart key (ground (arith, e))),
  )

  merged_lookup :
      (key : ℕ) (ps qs : List (ChangeProposal J))
      → or_else (first_with key ps) (first_with key (unseen (ids ps) qs))
        ≡ or_else (first_with key ps) (first_with key qs)
  merged_lookup key ps qs =
      let e = first_with-unseen key (ids ps) qs in let i = elem-ids key ps in ground (arith, e, i)

  -- The lookup in both lists together, the entries of the first going before.
  pub first_with-merged :
      (key : ℕ) (d rows : List (ℕ × ChangeProposal J))
      → IsTable d
      → IsTable rows
      → let mine = values d in
        first_with key (awaiting (mine ++ unseen (ids mine) (open_ones (values rows))))
        ≡ if_awaiting (or_else (find d key) (first_with key (open_ones (values rows))))
  first_with-merged key d rows h g =
      let mine = values d in
      let opened = open_ones (values rows) in
      let others = unseen (ids mine) opened in
      let apart : (k : ℕ) → elem k (ids mine) ≡ true → first_with k others ≡ none =
        λ k e. first_with-unseen k (ids mine) opened ∙ ground (arith, e) in
      let distinct =
        append-Distinct mine others (values-Distinct d h)
          (unseen-Distinct (ids mine) opened
            (open_ones-Distinct (values rows) (values-Distinct rows g)))
          apart in
      first_with-awaiting key (mine ++ others) distinct
      ∙ ap if_awaiting (first_with-append key mine others ∙ merged_lookup key mine opened)
      ∙ ap (λ o. if_awaiting (or_else o (first_with key opened))) (first_with-values d key h)

  -- The lookup among the open rows of the store.
  pub first_with-rows :
      (key : ℕ) (rows : List (ℕ × ChangeProposal J))
      → IsTable rows
      → first_with key (open_ones (values rows)) ≡ if_open (find rows key)
  first_with-rows key rows h =
      first_with-open_ones key (values rows) (values-Distinct rows h)
      ∙ ap if_open (first_with-values rows key h)

  pub first_with-id :
      (key : ℕ) (ps : List (ChangeProposal J)) (p : ChangeProposal J)
      → first_with key ps ≡ some p
      → p.proposal_id ≡ key
  first_with-id key [] p e = absurd (ground (arith, e))
  first_with-id key (q ∷ ps) p e = elim (Bool-cases (q.proposal_id == key)) [
    | inl same ↦ ground (arith, same, e)
    | inr other ↦ first_with-id key ps p (ground (arith, other, e))
  ]
