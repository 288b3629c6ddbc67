-- ===== src/Session/Halts.antt =====
-- What holds over whole runs of a SessionStateMachine: halts, the terminal state, early resumes.
use nexus_trading.Base.{
  ℕ, ◌+◌, ◌<◌, ◌≤◌, ◌≡◌, refl, ◌≢◌, Bool, true, false, Option, none, some, String, List, [], ◌∷◌,
  get_elem?, text_truthy, Bool-cases, inl, inr, arith, le→leb, Result, ok, err,
}
use nexus_trading.Session.States.{
  SessionState, active, paused_cooldown, halted_risk, halted_anomaly, halted_reconciliation,
  shutdown,
}
use nexus_trading.Session.Machine.{
  Machine, Reason, Error, schedule, World, Task, enter, is_trading_permitted, is_halted, is_paused,
  transition_to, pause_cooldown, auto_resume,
}
use nexus_trading.Session.Allowed.{
  Allowed, boot, clear_data, assess, pause, cool_down, breach_active, breach_paused, anomaly_data,
  anomaly_regime, anomaly_active, anomaly_paused, mismatch, approved, stop, risk, anomaly,
  reconciliation,
}
use nexus_trading.Session.Runs.{Call, wakes, pauses, step, run, names_approver, step_keeps}

-- Halted, or shut down.
abbrev Locked : SessionState → Type 0
Locked halted_risk = Unit
Locked halted_anomaly = Unit
Locked halted_reconciliation = Unit
Locked shutdown = Unit
Locked _ = ⊥

Allowed-Locked :
    {a b : SessionState} {who : Option String}
    → Allowed a b who
    → text_truthy who ≡ false
    → Locked a
    → Locked b
Allowed-Locked (approved h t) f l = cc
Allowed-Locked (stop h) f l = tt
Allowed-Locked breach_active f l = tt
Allowed-Locked breach_paused f l = tt
Allowed-Locked anomaly_data f l = tt
Allowed-Locked anomaly_regime f l = tt
Allowed-Locked anomaly_active f l = tt
Allowed-Locked anomaly_paused f l = tt
Allowed-Locked mismatch f l = tt
Allowed-Locked boot f l = absurd l
Allowed-Locked clear_data f l = absurd l
Allowed-Locked assess f l = absurd l
Allowed-Locked pause f l = absurd l
Allowed-Locked cool_down f l = absurd l

abbrev IsLocked : Machine → Type 0
IsLocked m = Locked m.state

abbrev Unnamed : Option String → Type 0
Unnamed who = text_truthy who ≡ false

run-IsLocked :
    (cs : List Call) (w : World)
    → names_approver cs ≡ false
    → IsLocked w.machine
    → IsLocked (run cs w).machine
unfolding run enter
run-IsLocked [] w f l = l
run-IsLocked (c ∷ cs) w f l = run-IsLocked cs (step c w) (ground arith) (
    step_keeps IsLocked Unnamed (λ now new reason who m o a l. Allowed-Locked a o l) refl c w
      (ground arith) l)

halted→IsLocked : (s : SessionState) (m : Machine) → m.state ≡ s → is_halted m ≡ true → Locked s
unfolding is_halted
halted→IsLocked halted_risk m e h = tt
halted→IsLocked halted_anomaly m e h = tt
halted→IsLocked halted_reconciliation m e h = tt
halted→IsLocked shutdown m e h = tt
halted→IsLocked _ m e h = cc

Locked-no_trading :
    (s : SessionState) (m : Machine) → m.state ≡ s → Locked s → is_trading_permitted m ≡ false
unfolding is_trading_permitted
Locked-no_trading halted_risk m e h = rw e
Locked-no_trading halted_anomaly m e h = rw e
Locked-no_trading halted_reconciliation m e h = rw e
Locked-no_trading shutdown m e h = rw e
Locked-no_trading _ m e h = absurd h

-- From a halted state no sequence of calls and expired timers brings trading back, unless one of
-- the calls names an approver.
pub halted_needs_human :
    (cs : List Call) (w : World)
    → is_halted w.machine ≡ true
    → is_trading_permitted (run cs w).machine ≡ true
    → names_approver cs ≡ true
halted_needs_human cs w h t = elim (Bool-cases (names_approver cs)) [
  | inl named ↦ named
  | inr unnamed ↦ cc (
      Locked-no_trading _ (run cs w).machine refl
        (run-IsLocked cs w unnamed (halted→IsLocked _ w.machine refl h)))
]

Allowed-leaves : {a b : SessionState} {who : Option String} → Allowed a b who → a ≢ shutdown
Allowed-leaves (approved risk t) e = cc
Allowed-leaves (approved anomaly t) e = cc
Allowed-leaves (approved reconciliation t) e = cc
Allowed-leaves (stop h) e = h e
Allowed-leaves breach_active e = cc
Allowed-leaves breach_paused e = cc
Allowed-leaves anomaly_data e = cc
Allowed-leaves anomaly_regime e = cc
Allowed-leaves anomaly_active e = cc
Allowed-leaves anomaly_paused e = cc
Allowed-leaves mismatch e = cc
Allowed-leaves boot e = cc
Allowed-leaves clear_data e = cc
Allowed-leaves assess e = cc
Allowed-leaves pause e = cc
Allowed-leaves cool_down e = cc

module _ (m : Machine) (down : m.state ≡ shutdown) where
  abbrev Unchanged : Machine → Type 0
  Unchanged m' = m' ≡ m

  -- Once shut down, the machine stays exactly as it is under every sequence of calls and timers.
  pub shutdown_is_final : (cs : List Call) (w : World) → w.machine ≡ m → (run cs w).machine ≡ m
  unfolding run
  shutdown_is_final [] w e = e
  shutdown_is_final (c ∷ cs) w e = shutdown_is_final cs (step c w) (
      step_keeps Unchanged (λ who. Unit {0})
        (λ now new reason who m' o a e'. absurd (Allowed-leaves a (cc))) tt c w tt e)

schedule_first :
    (r : Result Error Bool) (t older : Task) (rest : List Task)
    → get_elem? (schedule r t (older ∷ rest)) 0 ≡ some older
schedule_first (ok _) t older rest = refl
schedule_first (err _) t older rest = refl

transition_pauses :
    (now : ℕ) (reason : Reason) (m : Machine)
    → m.state ≡ active
    → (transition_to now paused_cooldown reason none m).1.state ≡ paused_cooldown
unfolding transition_to
transition_pauses now reason m a = rw (a, transition_to)

-- A task that is due turns a paused machine active.
wakes_paused :
    (i later : ℕ) (t : Task) (w : World)
    → w.machine.state ≡ paused_cooldown
    → get_elem? w.tasks i ≡ some t
    → t.due ≤ later
    → (step (wakes i later) w).machine.state ≡ active
unfolding step auto_resume transition_to
wakes_paused i later t w p g due = rw (g, le→leb _ _ due, p, transition_to)

-- A pause ends when the task of an earlier pause wakes: the machine trades again at a time before
-- the end of the cooldown that the newer pause asked for.
pub early_resume :
    (w : World) (older : Task) (rest : List Task) (now : ℕ) (reason : Reason) (duration later : ℕ)
    → w.machine.state ≡ active
    → w.tasks ≡ older ∷ rest
    → older.due ≤ later
    → later < now + duration
    → (is_paused (step (pauses now reason duration) w).machine ≡ true)
      × (is_trading_permitted (run (pauses now reason duration ∷ wakes 0 later ∷ []) w).machine
          ≡ true)
unfolding is_paused is_trading_permitted run step pause_cooldown
early_resume w older rest now reason duration later a ts due early =
    let paused = transition_pauses now reason w.machine a in
    let first : get_elem? (step (pauses now reason duration) w).tasks 0 ≡ some older =
      rw ts (schedule_first _ _ older rest) in
    (
      rw paused,
      rw (wakes_paused 0 later older (step (pauses now reason duration) w) paused first due),
    )
