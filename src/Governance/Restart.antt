-- ===== src/Governance/Restart.antt =====
-- A restart from the governance agent to the supervisor of agents/agent_13_portfolio_supervisor.py.
use nexus_trading.Base.{
  Floats, ℕ, ◌≡◌, refl, ◌∙◌, Bool, true, false, none, some, [], ◌∷◌, ◌++◌, String, text_truthy, ◌⊎◌,
  ◌&&◌, inl, inr, subst, sym, Bool-cases, arith, Result, ok, err,
}
use nexus_trading.Governance.Agent.{
  Governance, Message, change_proposal, resume_command, restart_authorized,
  authorize_system_restart,
}
use nexus_trading.Session.Machine.{World, Error, given, human_resume}
use nexus_trading.Supervisor.State.{Config, Psa, halted, trading, same_system}
use nexus_trading.Supervisor.Control.{after_fsm, handle_resume}
use nexus_trading.Supervisor.Trades.{Incoming, system_state_message, other_topic, process}

-- What the supervisor gets of a message of the governance agent: it does not listen to proposals.
abbrev pub to_supervisor : {J : Type 0} (F : Floats) → Message J → Incoming F
to_supervisor F (change_proposal p) = other_topic
to_supervisor F (resume_command by reason) = system_state_message true (some by)

module _ {F : Floats} where
  -- The entries that a resume clears.
  abbrev Cleared : Psa F → Type 0
  Cleared s = (s.system_state ≡ trading) × (s.halt_reason ≡ none) × (s.anomaly_hold ≡ false)

  after_fsm-Cleared :
      (r : Result Error Bool) (w : World) (s : Psa F) → Cleared s → Cleared (after_fsm F r w s)
  after_fsm-Cleared (ok true) w s h = h
  after_fsm-Cleared (ok false) w s h = h
  after_fsm-Cleared (err e) w s h = h

  resume-Cleared :
      (now : ℕ) (by : String) (s : Psa F)
      → same_system s.system_state halted ≡ true
      → Cleared (handle_resume F now by s)
  unfolding handle_resume
  resume-Cleared now by s e =
      let reason = given (F.format "Human clearance by {}" (by ∷ []) [] []) in
      let (r, m) = human_resume now by reason s.session.machine in
      let t = record s { system_state = trading; halt_reason = none; anomaly_hold = false } in
      let c = after_fsm-Cleared r (record s.session { machine = m }) t (refl, refl, refl) in
      rw e (c.0, c.1, c.2)

  resume-other :
      (now : ℕ) (by : String) (s : Psa F)
      → same_system s.system_state halted ≡ false
      → handle_resume F now by s ≡ s
  unfolding handle_resume
  resume-other now by s e = rw e refl

  resume_sent :
      (c : Config F) (now : ℕ) (by : String) (s : Psa F)
      → text_truthy (some by) ≡ true
      → process F c now (system_state_message true (some by)) s ≡ handle_resume F now by s
  unfolding process
  resume_sent c now by s named = rw named refl

  resume_unsigned :
      (c : Config F) (now : ℕ) (by : String) (s : Psa F)
      → text_truthy (some by) ≡ false
      → process F c now (system_state_message true (some by)) s ≡ s
  unfolding process
  resume_unsigned c now by s unnamed = rw unnamed refl

  -- An authorized restart is recorded and sent once, whoever the approver. The supervisor that gets
  -- it changes only if it is halted and the approver has a name that is not empty: then its state is
  -- `trading`, without hold and reason. (A pause that still runs, or the session, may bar trading.)
  pub restart_lem :
      {J : Type 0} (c : Config F) (now later : ℕ) (approver reason : String) (g : Governance J)
      (s : Psa F)
      → let g' = authorize_system_restart now approver reason g in
        let m : Message J = resume_command approver reason in
        let s' = process F c later (to_supervisor F m) s in
        let clears = same_system s.system_state halted && text_truthy (some approver) in
        (g'.sent ≡ g.sent ++ m ∷ [])
        × (g'.audited ≡ g.audited ++ restart_authorized approver reason now ∷ [])
        × (((clears ≡ true)
              × (s'.system_state ≡ trading)
              × (s'.halt_reason ≡ none)
              × (s'.anomaly_hold ≡ false))
            ⊎ ((clears ≡ false) × (s' ≡ s)))
  unfolding authorize_system_restart
  restart_lem c now later approver reason g s = (
    refl,
    refl,
    elim (Bool-cases (text_truthy (some approver))) [
      | inl named ↦ elim (Bool-cases (same_system s.system_state halted)) [
        | inl e ↦
            let r = resume-Cleared later approver s e in
            let (trades, reason, hold) =
              subst Cleared (sym (resume_sent c later approver s named)) r in
            inl (ground (arith, e, named), trades, reason, hold)
        | inr e ↦ inr (
          ground (arith, e, named),
          resume_sent c later approver s named ∙ resume-other later approver s e,
        )
      ]
      | inr unnamed ↦ inr (ground (arith, unnamed), resume_unsigned c later approver s unnamed)
    ],
  )
