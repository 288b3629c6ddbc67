-- ===== src/Session/Allowed.antt =====
-- The rules of session_state_machine.py's header as a relation, and transition_to against it.
use nexus_trading.Base.{
  ℕ, ◌≡◌, refl, ◌≢◌, ◌⊎◌, inl, inr, Bool, true, false, not, ◌&&◌, Option, String, Bool-cases,
  text_truthy, ok, err, arith,
}
use nexus_trading.Session.States.{
  SessionState, booting, waiting_for_data_integrity, waiting_for_regime, active, paused_cooldown,
  halted_risk, halted_anomaly, halted_reconciliation, shutdown, same_state, is_one_of,
  session_state_transitions, same_state→eq, same_state→ne,
}
use nexus_trading.Session.Machine.{
  Machine, Reason, Error, not_permitted, needs_approval, transition_to, lacks_approval, notify,
  enter,
}

-- A halt waits for a human.
pub data Halt : SessionState → Type 0 where
  risk : Halt halted_risk
  anomaly : Halt halted_anomaly
  reconciliation : Halt halted_reconciliation

-- The moves of the machine; `who` is the approver that the call names.
pub data Allowed : SessionState → SessionState → Option String → Type 0 where
  boot : {who : Option String} → Allowed booting waiting_for_data_integrity who
  clear_data : {who : Option String} → Allowed waiting_for_data_integrity waiting_for_regime who
  assess : {who : Option String} → Allowed waiting_for_regime active who
  pause : {who : Option String} → Allowed active paused_cooldown who
  cool_down : {who : Option String} → Allowed paused_cooldown active who
  breach_active : {who : Option String} → Allowed active halted_risk who
  breach_paused : {who : Option String} → Allowed paused_cooldown halted_risk who
  anomaly_data : {who : Option String} → Allowed waiting_for_data_integrity halted_anomaly who
  anomaly_regime : {who : Option String} → Allowed waiting_for_regime halted_anomaly who
  anomaly_active : {who : Option String} → Allowed active halted_anomaly who
  anomaly_paused : {who : Option String} → Allowed paused_cooldown halted_anomaly who
  mismatch : {who : Option String} → Allowed active halted_reconciliation who
  approved :
      {s : SessionState} {who : Option String}
      → Halt s
      → text_truthy who ≡ true
      → Allowed s active who
  stop : {s : SessionState} {who : Option String} → s ≢ shutdown → Allowed s shutdown who

-- The tests that transition_to makes, in one.
abbrev passes : SessionState → SessionState → Option String → Bool
passes from to who =
    not (same_state to from)
    && (is_one_of to (session_state_transitions from) && not (lacks_approval from to who))

passes→Allowed :
    (from to : SessionState) (who : Option String) → passes from to who ≡ true → Allowed from to who
passes→Allowed booting waiting_for_data_integrity who h = boot
passes→Allowed waiting_for_data_integrity waiting_for_regime who h = clear_data
passes→Allowed waiting_for_regime active who h = assess
passes→Allowed active paused_cooldown who h = pause
passes→Allowed paused_cooldown active who h = cool_down
passes→Allowed active halted_risk who h = breach_active
passes→Allowed paused_cooldown halted_risk who h = breach_paused
passes→Allowed waiting_for_data_integrity halted_anomaly who h = anomaly_data
passes→Allowed waiting_for_regime halted_anomaly who h = anomaly_regime
passes→Allowed active halted_anomaly who h = anomaly_active
passes→Allowed paused_cooldown halted_anomaly who h = anomaly_paused
passes→Allowed active halted_reconciliation who h = mismatch
passes→Allowed halted_risk active who h = approved risk (ground arith)
passes→Allowed halted_anomaly active who h = approved anomaly (ground arith)
passes→Allowed halted_reconciliation active who h = approved reconciliation (ground arith)
passes→Allowed shutdown shutdown who h = cc
passes→Allowed from shutdown who h = stop (λ e. cc)
passes→Allowed _ _ who h = cc

Allowed→passes :
    (from to : SessionState) (who : Option String) → Allowed from to who → passes from to who ≡ true
Allowed→passes _ _ who boot = refl
Allowed→passes _ _ who clear_data = refl
Allowed→passes _ _ who assess = refl
Allowed→passes _ _ who pause = refl
Allowed→passes _ _ who cool_down = refl
Allowed→passes _ _ who breach_active = refl
Allowed→passes _ _ who breach_paused = refl
Allowed→passes _ _ who anomaly_data = refl
Allowed→passes _ _ who anomaly_regime = refl
Allowed→passes _ _ who anomaly_active = refl
Allowed→passes _ _ who anomaly_paused = refl
Allowed→passes _ _ who mismatch = refl
Allowed→passes _ _ who (approved risk t) = rw t
Allowed→passes _ _ who (approved anomaly t) = rw t
Allowed→passes _ _ who (approved reconciliation t) = rw t
Allowed→passes booting _ who (stop h) = refl
Allowed→passes shutdown _ who (stop h) = absurd (h refl)
Allowed→passes _ _ who (stop h) = refl

abbrev pub Passed : ℕ → SessionState → Reason → Option String → Machine → Type 0
Passed now new reason who m =
    transition_to now new reason who m
    ≡ (notify m.on_transition m.state new reason, enter now new reason who m)

abbrev pub Refused : ℕ → SessionState → Reason → Option String → Machine → Type 0
Refused now new reason who m =
    let (r, m') = transition_to now new reason who m in
    (m' ≡ m)
    × (((new ≡ m.state) × (r ≡ ok false)) ⊎ ((new ≢ m.state) × ((e : Error) × (r ≡ err e))))

module _ (now : ℕ) (new : SessionState) (reason : Reason) (who : Option String) (m : Machine) where
  transition_to_pass : passes m.state new who ≡ true → Passed now new reason who m
  unfolding transition_to
  transition_to_pass h = ground arith

  transition_to_fail : passes m.state new who ≡ false → Refused now new reason who m
  unfolding transition_to
  transition_to_fail h = elim (Bool-cases (same_state new m.state)) [
    | inl same ↦ rw (same, transition_to) (refl, inl (same_state→eq _ _ same, refl))
    | inr differs ↦ elim (Bool-cases (is_one_of new (session_state_transitions m.state))) [
      | inl listed ↦
          rw
            (
              differs,
              listed,
              (let g : lacks_approval m.state new who ≡ true = ground arith in g),
              transition_to,
            )
            (refl, inr (same_state→ne _ _ differs, (needs_approval m.state, refl)))
      | inr unlisted ↦
          rw (differs, unlisted, transition_to)
            (refl, inr (same_state→ne _ _ differs, (not_permitted m.state new, refl)))
    ]
  ]

  -- A call makes an allowed move and no other. What is not allowed leaves the whole machine as it
  -- was: it returns False when the state is already the one asked for, and raises otherwise.
  pub transition_to_lem :
      (Allowed m.state new who × Passed now new reason who m)
      ⊎ ((¬ Allowed m.state new who) × Refused now new reason who m)
  transition_to_lem = elim (Bool-cases (passes m.state new who)) [
    | inl pass ↦ inl (passes→Allowed m.state new who pass, transition_to_pass pass)
    | inr fail ↦ inr (λ a. cc (Allowed→passes m.state new who a), transition_to_fail fail)
  ]

  -- What holds of the machine before and after an allowed move holds after the call.
  pub transition_cases {ℓ} :
      (P : Machine → Type ℓ)
      → P m
      → (Allowed m.state new who → P (enter now new reason who m))
      → P (transition_to now new reason who m).1
  transition_cases P stays moves = elim transition_to_lem [
    | inl (a, e) ↦ rw e (moves a)
    | inr (_, f) ↦ rw (f.0) stays
  ]
