-- ===== src/Supervisor/Runs.antt =====
-- What reaches the supervisor: messages, the end of its pauses, and calls of its session machine.
use nexus_trading.Base.{
  Floats, ℕ, zero, suc, ◌&&◌, ◌||◌, Bool, false, Option, none, some, List, [], ◌∷◌, String, leb,
  if◌then◌else◌, get_elem?, text_truthy,
}
use nexus_trading.Session.States.{same_state}
use nexus_trading.Session.Machine.{World, is_trading_permitted}
use nexus_trading.Session.Runs.{Call}
use nexus_trading.Session.Runs
use nexus_trading.Supervisor.State.{Config, Psa, session_changed}
use nexus_trading.Supervisor.Control.{publish, on_session_start, auto_resume}
use nexus_trading.Supervisor.Trades.{Incoming, system_state_message, process, on_kill_switch}

-- `naps` without the one at a place.
abbrev pub nap_over : ℕ → List ℕ → List ℕ
nap_over i [] = []
nap_over zero (t ∷ ts) = ts
nap_over (suc i) (t ∷ ts) = t ∷ nap_over i ts

module _ (F : Floats) where
  -- An event and its time. The coordinator calls the session machine too, and its own timers do.
  pub data Event : Type 0 where
    receives : ℕ → Incoming F → Event
    session_starts : ℕ → Event
    kill_switched : ℕ → Option String → Option String → Event
    nap_ends : ℕ → ℕ → Event
    session_call : Call → Event

  abbrev pub wake : ℕ → ℕ → Option ℕ → Psa F → Psa F
  wake i now none s = s
  wake i now (some due) s =
      if leb due now then auto_resume F (record s { naps = nap_over i s.naps }) else s

  -- A call that moves the session machine publishes the move.
  abbrev pub after_call : World → Psa F → Psa F
  after_call w s =
      if same_state w.machine.state s.session.machine.state
      then record s { session = w }
      else publish F
          (session_changed w.machine.state w.machine.previous_state w.machine.reason
            (is_trading_permitted w.machine))
          (record s { session = w })

  unfoldable pub step : Config F → Event → Psa F → Psa F
  step c (receives now m) s = process F c now m s
  step c (session_starts now) s = on_session_start F now s
  step c (kill_switched now reason by) s = on_kill_switch F now reason by s
  step c (nap_ends i now) s = wake i now (get_elem? s.naps i) s
  step c (session_call call) s = after_call (Runs.step call s.session) s

  unfoldable pub run : Config F → List Event → Psa F → Psa F
  unfolding step
  run c [] s = s
  run c (e ∷ es) s = run c es (step c e s)

  -- Whether an event is a resume command with an approver.
  abbrev pub approves_resume : Event → Bool
  approves_resume (receives now (system_state_message resume by)) = resume && text_truthy by
  approves_resume _ = false

  abbrev pub any_resume : List Event → Bool
  any_resume [] = false
  any_resume (e ∷ es) = approves_resume e || any_resume es
