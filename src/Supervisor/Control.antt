-- ===== src/Supervisor/Control.antt =====
-- class PortfolioSupervisorAgent: start, halt, pause, resume, and the alerts that lead to them.
use nexus_trading.Base.{
  Floats, ℕ, ◌+◌, ◌||◌, Bool, true, false, not, Option, none, some, [], ◌∷◌, ◌++◌, String, ltb,
  if◌then◌else◌, Result, ok, err,
}
use nexus_trading.Session.States.{waiting_for_regime, same_state}
use nexus_trading.Session.Machine.{
  World, Machine, Reason, given, Error, boot_complete, regime_ready, is_trading_permitted,
  halt_risk, halt_anomaly, halt_reconciliation, human_resume, pause_cooldown,
}
use nexus_trading.Supervisor.State.{
  Config, Psa, Message, session_changed, halt_command, pause_announced, pause_elapsed,
  resume_command, anomaly_announced, SystemState, same_system, trading, paused, halted, Breach,
  reconciliation_mismatched, feed_anomalous, bus_failed, Alert, bus_failure, other_alert,
  system_halt, risk_breach, system_resume,
}

module _ (F : Floats) where
  abbrev pub publish : Message F → Psa F → Psa F
  publish m s = record s { sent = s.sent ++ m ∷ [] }

  -- `_persist_state`
  abbrev pub persist_state : Psa F → Psa F
  persist_state s = record s { stored = some (s.system_state, s.halt_reason, s.anomaly_hold) }

  -- After a call of the session machine: its callback publishes what has changed; what it raises
  -- is only logged.
  abbrev pub after_fsm : Result Error Bool → World → Psa F → Psa F
  after_fsm (ok true) w s =
      publish
        (session_changed w.machine.state w.machine.previous_state w.machine.reason
          (is_trading_permitted w.machine))
        (record s { session = w })
  after_fsm (ok false) w s = record s { session = w }
  after_fsm (err e) w s = record s { session = w }

  abbrev pub drive : (Machine → Result Error Bool × Machine) → Psa F → Psa F
  drive call s =
      let (r, m) = call s.session.machine in after_fsm r (record s.session { machine = m }) s

  -- `on_startup`; what the store holds and, unless the broker's call raises, the equity are given.
  unfoldable pub on_startup :
      Config F → ℕ → SystemState × Option String × Bool → Option F.Float → Psa F → Psa F
  on_startup c now loaded equity s =
      let (state, reason, hold) = loaded in
      let restored = record s {
        system_state = state;
        halt_reason = reason;
        anomaly_hold = hold;
        starting_equity = c.starting_equity;
        current_equity = elim equity [ none ↦ c.starting_equity | some e ↦ e ];
      } in
      persist_state (drive (boot_complete now) restored)

  -- `_on_session_start`
  unfoldable pub on_session_start : ℕ → Psa F → Psa F
  on_session_start now s =
      if same_state s.session.machine.state waiting_for_regime
      then drive (regime_ready now) s
      else s

  abbrev pub fsm_halt : Breach → ℕ → Reason → Machine → Result Error Bool × Machine
  fsm_halt reconciliation_mismatched now reason = halt_reconciliation now reason
  fsm_halt feed_anomalous now reason = halt_anomaly now reason
  fsm_halt bus_failed now reason = halt_anomaly now reason
  fsm_halt _ now reason = halt_risk now reason

  -- `_halt`
  unfoldable pub halt : ℕ → String → Breach → Psa F → Psa F
  halt now reason breach s =
      if same_system s.system_state halted
      then s
      else let stopped = record s {
        system_state = halted;
        halt_reason = some reason;
        anomaly_hold = true;
      } in
        let driven = persist_state (drive (fsm_halt breach now (given reason)) stopped) in
        publish (halt_command reason driven.session.machine.state) (record driven {
          audited = driven.audited ++ system_halt reason ∷ risk_breach breach reason ∷ [];
        })

  -- `_pause`
  unfoldable pub pause : ℕ → String → ℕ → Psa F → Psa F
  pause now reason duration s =
      if same_system s.system_state halted || same_system s.system_state paused
      then s
      else let stopped = record s { system_state = paused; pause_until = some (now + duration) } in
        let (r, w) = pause_cooldown now (given reason) duration s.session in
        let driven = persist_state (after_fsm r w stopped) in
        publish (pause_announced reason (now + duration))
          (record driven { naps = driven.naps ++ (now + duration) ∷ [] })

  -- `_auto_resume`, when its sleep is over.
  unfoldable pub auto_resume : Psa F → Psa F
  auto_resume s =
      if same_system s.system_state paused
      then publish pause_elapsed
          (persist_state (record s { system_state = trading; pause_until = none }))
      else s

  -- `_handle_resume`
  unfoldable pub handle_resume : ℕ → String → Psa F → Psa F
  handle_resume now by s =
      if not (same_system s.system_state halted)
      then s
      else let cleared = record s {
        system_state = trading;
        halt_reason = none;
        anomaly_hold = false;
      } in
        let reason = given (F.format "Human clearance by {}" (by ∷ []) [] []) in
        let driven = persist_state (drive (human_resume now by reason) cleared) in
        publish (resume_command by)
          (record driven { audited = driven.audited ++ system_resume by ∷ [] })

  abbrev pub is_anomaly : Alert → Bool
  is_anomaly (other_alert _) = false
  is_anomaly _ = true

  abbrev pub hold_for : Alert → String → Psa F → Psa F
  hold_for alert reason s =
      if is_anomaly alert
      then publish (anomaly_announced alert reason)
          (persist_state (record s { anomaly_hold = true }))
      else s

  -- `_handle_psa_alert`
  unfoldable pub handle_psa_alert : ℕ → Alert → String → Psa F → Psa F
  handle_psa_alert now bus_failure reason s =
      halt now (F.format "Message bus failure: {}" (reason ∷ []) [] []) bus_failed
        (hold_for bus_failure reason s)
  handle_psa_alert now alert reason s = hold_for alert reason s

  -- `is_trading_allowed`
  unfoldable pub is_trading_allowed : ℕ → Psa F → Bool
  is_trading_allowed now s =
      if not (is_trading_permitted s.session.machine)
      then false
      else if s.anomaly_hold
      then false
      else not (elim s.pause_until [ none ↦ false | some t ↦ ltb now t ])
