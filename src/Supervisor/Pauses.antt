-- ===== src/Supervisor/Pauses.antt =====
-- A halt in the middle of a pause, and the resume that ends it.
use nexus_trading.Base.{
  Floats, ℕ, ◌+◌, ◌≡◌, refl, ap, ◌∙◌, Bool, true, false, not, Option, none, some, [], ◌∷◌, String,
  ltb, text_truthy, Result, ok, err,
}
use nexus_trading.Session.States.{SessionState, active, paused_cooldown, halted_risk, same_state}
use nexus_trading.Session.Machine.{
  World, Machine, Reason, Error, given, is_trading_permitted, transition_to, halt_risk,
  human_resume, pause_cooldown,
}
use nexus_trading.Supervisor.State.{
  Psa, SystemState, trading, halted, paused, same_system, kill_switch,
}
use nexus_trading.Supervisor.Control.{
  halt, pause, handle_resume, is_trading_allowed, after_fsm, fsm_halt,
}
use nexus_trading.Supervisor.Stopouts.{is_stopped}

-- What `is_trading_allowed` and the guards read.
record Gate {F : Floats} (state : SystemState) (hold : Bool) (until : Option ℕ)
    (session : SessionState) (s : Psa F) : Type 0 where
  is_state : s.system_state ≡ state
  is_hold : s.anomaly_hold ≡ hold
  is_until : s.pause_until ≡ until
  is_session : s.session.machine.state ≡ session

pauses :
    (now : ℕ) (reason : Reason) (m : Machine)
    → m.state ≡ active
    → (transition_to now paused_cooldown reason none m).1.state ≡ paused_cooldown
unfolding transition_to
pauses now reason m e = rw (e, transition_to)

halts :
    (now : ℕ) (reason : Reason) (m : Machine)
    → m.state ≡ paused_cooldown
    → (halt_risk now reason m).1.state ≡ halted_risk
unfolding transition_to halt_risk
halts now reason m e = rw (e, transition_to)

resumes :
    (now : ℕ) (by : String) (reason : Reason) (m : Machine)
    → m.state ≡ halted_risk
    → text_truthy (some by) ≡ true
    → (human_resume now by reason m).1.state ≡ active
unfolding transition_to human_resume
resumes now by reason m e who = rw (e, who, transition_to)

module _ {F : Floats} where
  after_fsm-Gate :
      (r : Result Error Bool) (w : World) (s : Psa F) (session : SessionState)
      → w.machine.state ≡ session
      → Gate s.system_state s.anomaly_hold s.pause_until session (after_fsm F r w s)
  after_fsm-Gate (ok true) w s x e = record {
    is_state = refl;
    is_hold = refl;
    is_until = refl;
    is_session = e;
  }
  after_fsm-Gate (ok false) w s x e = record {
    is_state = refl;
    is_hold = refl;
    is_until = refl;
    is_session = e;
  }
  after_fsm-Gate (err _) w s x e = record {
    is_state = refl;
    is_hold = refl;
    is_until = refl;
    is_session = e;
  }

  pause-Gate :
      (now duration : ℕ) (why : String) (s : Psa F)
      → s.session.machine.state ≡ active
      → is_stopped s ≡ false
      → Gate paused s.anomaly_hold
          (some (now + duration))
          paused_cooldown
          (pause F now why duration s)
  unfolding pause pause_cooldown
  pause-Gate now duration why s a e =
      let (r, w) = pause_cooldown now (given why) duration s.session in
      let stopped = record s { system_state = paused; pause_until = some (now + duration) } in
      let g =
        after_fsm-Gate r w stopped paused_cooldown (pauses now (given why) s.session.machine a) in
      rw e (record {
        is_state = g.is_state;
        is_hold = g.is_hold;
        is_until = g.is_until;
        is_session = g.is_session;
      })

  halt-Gate :
      (now : ℕ) (what : String) (hold : Bool) (until : Option ℕ) (s : Psa F)
      → Gate paused hold until paused_cooldown s
      → Gate halted true until halted_risk (halt F now what kill_switch s)
  unfolding halt
  halt-Gate now what hold until s h =
      let (r, m) = fsm_halt F kill_switch now (given what) s.session.machine in
      let stopped = record s {
        system_state = halted;
        halt_reason = some what;
        anomaly_hold = true;
      } in
      let moved = halts now (given what) s.session.machine h.is_session in
      let g = after_fsm-Gate r (record s.session { machine = m }) stopped halted_risk moved in
      rw (ap (λ x. same_system x halted) h.is_state) (record {
        is_state = g.is_state;
        is_hold = g.is_hold;
        is_until = g.is_until ∙ h.is_until;
        is_session = g.is_session;
      })

  resume-Gate :
      (now : ℕ) (by : String) (until : Option ℕ) (s : Psa F)
      → text_truthy (some by) ≡ true
      → Gate halted true until halted_risk s
      → Gate trading false until active (handle_resume F now by s)
  unfolding handle_resume
  resume-Gate now by until s who h =
      let reason = given (F.format "Human clearance by {}" (by ∷ []) [] []) in
      let (r, m) = human_resume now by reason s.session.machine in
      let cleared = record s { system_state = trading; halt_reason = none; anomaly_hold = false } in
      let moved = resumes now by reason s.session.machine h.is_session who in
      let g = after_fsm-Gate r (record s.session { machine = m }) cleared active moved in
      rw (ap (λ x. same_system x halted) h.is_state) (record {
        is_state = g.is_state;
        is_hold = g.is_hold;
        is_until = g.is_until ∙ h.is_until;
        is_session = g.is_session;
      })

  -- A pause of a trading system, a halt during it and a resume that names an approver: trading is
  -- allowed again from the end of the pause, and not from the approval on.
  pub resume_waits_for_pause :
      (t0 t1 t2 duration : ℕ) (why what by : String) (s : Psa F)
      → s.session.machine.state ≡ active
      → is_stopped s ≡ false
      → text_truthy (some by) ≡ true
      → let resumed =
          handle_resume F t2 by (halt F t1 what kill_switch (pause F t0 why duration s)) in
        (resumed.system_state ≡ trading)
        × (is_trading_permitted resumed.session.machine ≡ true)
        × ((later : ℕ) → is_trading_allowed F later resumed ≡ not (ltb later (t0 + duration)))
  unfolding is_trading_allowed is_trading_permitted
  resume_waits_for_pause t0 t1 t2 duration why what by s a e who =
      let p = pause-Gate t0 duration why s a e in
      let g = resume-Gate t2 by _ _ who (halt-Gate t1 what _ _ _ p) in
      (
        g.is_state,
        ap (λ x. same_state x active) g.is_session,
        λ later. rw (g.is_session, g.is_hold, g.is_until) refl,
      )
