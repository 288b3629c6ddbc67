-- ===== src/Session.antt =====
-- infrastructure/session_state_machine.py (class SessionStateMachine) and the tables of
-- core/enums.py that it reads. Time is an argument of the calls that read the clock.
pub mod States
pub mod Machine
pub mod Allowed
pub mod History
pub mod Runs
pub mod Halts
mod Tests
