-- ===== src/Session/Tests.antt =====
-- Runs of the session state machine at concrete inputs.
use nexus_trading.Base.{◌≡◌, refl, ◌⊎◌, true, none, some, List, [], ◌∷◌, err, arith}
use nexus_trading.Session.States.{active, halted_risk, shutdown}
use nexus_trading.Session.Machine.{
  Machine, World, given, needs_approval, init, transition_to, is_trading_permitted, is_paused,
  is_halted,
}
use nexus_trading.Session.Allowed.{Allowed, Passed, Refused, transition_to_lem}
use nexus_trading.Session.Runs.{
  Call, boots, clears, readies, pauses, resumes, wakes, step, run, names_approver,
}
use nexus_trading.Session.History.{IsValid, history_IsValid}
use nexus_trading.Session.Halts.{halted_needs_human, shutdown_is_final, early_resume}

abbrev fresh : World
fresh = record { machine = init none 0; tasks = [] }

abbrev start_up : List Call
start_up = boots 1 ∷ clears 2 ∷ readies 3 ∷ []

start_up_trades : is_trading_permitted (run start_up fresh).machine ≡ true
unfolding run init transition_to is_trading_permitted
start_up_trades = refl

abbrev halted : Machine
halted = record {
  state = halted_risk;
  previous_state = active;
  reason = given "loss cap";
  entered_at = 9;
  on_transition = none;
  pending_approval_by = none;
  history = [];
}

no_name :
    transition_to 10 active (given "go") (some "") halted
    ≡ (err (needs_approval halted_risk), halted)
unfolding transition_to
no_name = refl

transition_to_lem_example :
    (Allowed halted_risk active none × Passed 10 active (given "go") none halted)
    ⊎ ((¬ Allowed halted_risk active none) × Refused 10 active (given "go") none halted)
transition_to_lem_example = transition_to_lem 10 active (given "go") none halted

abbrev halted_world : World
halted_world = record {
  machine = halted;
  tasks = record { due = 5; duration = 5; pause_reason = given "slow" } ∷ [];
}

abbrev cleared : List Call
cleared = wakes 0 11 ∷ readies 12 ∷ resumes 13 "ops" (given "checked") ∷ []

halted_needs_human_example : names_approver cleared ≡ true
unfolding run transition_to is_trading_permitted is_halted
halted_needs_human_example = halted_needs_human cleared halted_world refl refl

abbrev down : Machine
down = record halted { state = shutdown }

abbrev down_world : World
down_world = record { machine = down; tasks = [] }

shutdown_is_final_example : (run cleared down_world).machine ≡ down
shutdown_is_final_example = shutdown_is_final down refl cleared down_world refl

history_IsValid_example : IsValid (run start_up fresh).machine
unfolding init
history_IsValid_example = history_IsValid none 0 start_up

abbrev trading : World
trading = record {
  machine = record halted { state = active };
  tasks = record { due = 100; duration = 100; pause_reason = given "first" } ∷ [];
}

early_resume_case :
    (is_paused (step (pauses 90 (given "second") 100) trading).machine ≡ true)
    × (is_trading_permitted
          (run (pauses 90 (given "second") 100 ∷ wakes 0 101 ∷ []) trading).machine
        ≡ true)
early_resume_case =
    early_resume trading (record { due = 100; duration = 100; pause_reason = given "first" }) [] 90
      (given "second") 100 101 refl refl (omega arith) (omega arith)
