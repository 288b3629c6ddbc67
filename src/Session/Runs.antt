-- ===== src/Session/Runs.antt =====
-- Sequences of calls on a SessionStateMachine, with the auto-resume tasks that they leave behind.
use nexus_trading.Base.{
  ℕ, zero, suc, inl, inr, Bool, false, ◌||◌, Option, none, some, List, [], ◌∷◌, String, leb,
  if◌then◌else◌, Bool-cases, get_elem?, text_truthy,
}
use nexus_trading.Session.States.{SessionState, active, paused_cooldown, same_state}
use nexus_trading.Session.Machine.{
  Machine, Reason, World, Task, transition_to, enter, boot_complete, data_integrity_cleared,
  regime_ready, halt_risk, halt_anomaly, halt_reconciliation, human_resume, shut_down,
  pause_cooldown, auto_resume,
}
use nexus_trading.Session.Allowed.{Allowed, transition_cases}

pub data Call : Type 0 where
  transitions : ℕ → SessionState → Reason → Option String → Call
  boots clears readies : ℕ → Call
  pauses : ℕ → Reason → ℕ → Call
  halts_risk halts_anomaly halts_reconciliation : ℕ → Reason → Call
  resumes : ℕ → String → Reason → Call
  stops : ℕ → Reason → Call
  -- the event loop wakes the task at this place of the list, at this time
  wakes : ℕ → ℕ → Call

-- The list without the entry at a place.
abbrev pub remove_at : ℕ → List Task → List Task
remove_at i [] = []
remove_at zero (t ∷ ts) = ts
remove_at (suc i) (t ∷ ts) = t ∷ remove_at i ts

abbrev wake : ℕ → ℕ → Option Task → World → World
wake i now none w = w
wake i now (some t) w =
    if leb t.due now
    then record { machine = auto_resume now t w.machine; tasks = remove_at i w.tasks }
    else w

-- What a call raises goes to its caller, and the machine goes on.
unfoldable pub step : Call → World → World
unfolding boot_complete data_integrity_cleared regime_ready halt_risk halt_anomaly
    halt_reconciliation human_resume shut_down pause_cooldown auto_resume
step (transitions now new reason who) w = record w {
  machine = (transition_to now new reason who w.machine).1;
}
step (boots now) w = record w { machine = (boot_complete now w.machine).1 }
step (clears now) w = record w { machine = (data_integrity_cleared now w.machine).1 }
step (readies now) w = record w { machine = (regime_ready now w.machine).1 }
step (pauses now reason duration) w = (pause_cooldown now reason duration w).1
step (halts_risk now reason) w = record w { machine = (halt_risk now reason w.machine).1 }
step (halts_anomaly now reason) w = record w { machine = (halt_anomaly now reason w.machine).1 }
step (halts_reconciliation now reason) w = record w {
  machine = (halt_reconciliation now reason w.machine).1;
}
step (resumes now who reason) w = record w { machine = (human_resume now who reason w.machine).1 }
step (stops now reason) w = record w { machine = (shut_down now reason w.machine).1 }
step (wakes i now) w = wake i now (get_elem? w.tasks i) w

unfoldable pub run : List Call → World → World
unfolding step
run [] w = w
run (c ∷ cs) w = run cs (step c w)

-- The approver that a call names.
abbrev pub approver : Call → Option String
approver (transitions now new reason who) = who
approver (resumes now who reason) = some who
approver _ = none

abbrev pub names_approver : List Call → Bool
names_approver [] = false
names_approver (c ∷ cs) = text_truthy (approver c) || names_approver cs

-- A property of machines that every allowed move keeps is kept by every step.
module _ (P : Machine → Type 0) (ok_approver : Option String → Type 0)
    (keep : (now : ℕ) (new : SessionState) (reason : Reason) (who : Option String) (m : Machine)
      → ok_approver who
      → Allowed m.state new who
      → P m
      → P (enter now new reason who m))
    (unnamed : ok_approver none) where
  moved :
      (now : ℕ) (new : SessionState) (reason : Reason) (who : Option String) (m : Machine)
      → ok_approver who
      → P m
      → P (transition_to now new reason who m).1
  moved now new reason who m o p =
      transition_cases now new reason who m P p (λ a. keep now new reason who m o a p)

  resumed : (now : ℕ) (t : Task) (m : Machine) → P m → P (auto_resume now t m)
  unfolding auto_resume
  resumed now t m p = elim (Bool-cases (same_state m.state paused_cooldown)) [
    | inl paused ↦ rw (paused, auto_resume) (moved now active _ none m unnamed p)
    | inr other ↦ rw (other, auto_resume) p
  ]

  woken : (i now : ℕ) (t : Option Task) (w : World) → P w.machine → P (wake i now t w).machine
  woken i now none w p = p
  woken i now (some t) w p = elim (Bool-cases (leb t.due now)) [
    | inl due ↦ rw due (resumed now t w.machine p)
    | inr early ↦ rw early p
  ]

  pub step_keeps :
      (c : Call) (w : World) → ok_approver (approver c) → P w.machine → P (step c w).machine
  unfolding step
  step_keeps (transitions now new reason who) w o p = moved now new reason who w.machine o p
  step_keeps (boots now) w o p = moved now _ _ none w.machine o p
  step_keeps (clears now) w o p = moved now _ _ none w.machine o p
  step_keeps (readies now) w o p = moved now _ _ none w.machine o p
  step_keeps (pauses now reason duration) w o p = moved now _ _ none w.machine o p
  step_keeps (halts_risk now reason) w o p = moved now _ _ none w.machine o p
  step_keeps (halts_anomaly now reason) w o p = moved now _ _ none w.machine o p
  step_keeps (halts_reconciliation now reason) w o p = moved now _ _ none w.machine o p
  step_keeps (resumes now who reason) w o p = moved now _ _ (some who) w.machine o p
  step_keeps (stops now reason) w o p = moved now _ _ none w.machine o p
  step_keeps (wakes i now) w o p = woken i now (get_elem? w.tasks i) w p
