-- ===== src/Session/States.antt =====
-- core/enums.py: SessionState and SESSION_STATE_TRANSITIONS.
use nexus_trading.Base.{ℕ, ◌≡◌, ◌≢◌, ◌||◌, Bool, true, false, List, [], ◌∷◌, ◌==◌, arith}

pub data SessionState : Type 0 where
  booting waiting_for_data_integrity waiting_for_regime active paused_cooldown : SessionState
  halted_risk halted_anomaly halted_reconciliation shutdown : SessionState

-- The text values of the enum, in order.
abbrev pub value : SessionState → ℕ
value booting = 0
value waiting_for_data_integrity = 1
value waiting_for_regime = 2
value active = 3
value paused_cooldown = 4
value halted_risk = 5
value halted_anomaly = 6
value halted_reconciliation = 7
value shutdown = 8

-- `a == b`
abbrev pub same_state : SessionState → SessionState → Bool
same_state a b = value a == value b

-- `a in states`
abbrev pub is_one_of : SessionState → List SessionState → Bool
is_one_of a [] = false
is_one_of a (b ∷ bs) = same_state a b || is_one_of a bs

abbrev pub session_state_transitions : SessionState → List SessionState
session_state_transitions booting = waiting_for_data_integrity ∷ shutdown ∷ []
session_state_transitions waiting_for_data_integrity =
    waiting_for_regime ∷ halted_anomaly ∷ shutdown ∷ []
session_state_transitions waiting_for_regime = active ∷ halted_anomaly ∷ shutdown ∷ []
session_state_transitions active =
    paused_cooldown ∷ halted_risk ∷ halted_anomaly ∷ halted_reconciliation ∷ shutdown ∷ []
session_state_transitions paused_cooldown = active ∷ halted_risk ∷ halted_anomaly ∷ shutdown ∷ []
session_state_transitions halted_risk = active ∷ shutdown ∷ []
session_state_transitions halted_anomaly = active ∷ shutdown ∷ []
session_state_transitions halted_reconciliation = active ∷ shutdown ∷ []
session_state_transitions shutdown = []

abbrev pub human_approval_required : List SessionState
human_approval_required = halted_risk ∷ halted_anomaly ∷ halted_reconciliation ∷ []

pub same_state→eq : (a b : SessionState) → same_state a b ≡ true → a ≡ b
same_state→eq a b h = ground arith

pub same_state→ne : (a b : SessionState) → same_state a b ≡ false → a ≢ b
same_state→ne a b h e = ground arith
