-- ===== src/Trading.antt =====
-- pipeline/state_machine.py (class TradingSessionStateMachine) and SystemState of core/enums.py.
pub mod Machine
pub mod Clock
pub mod Runs
mod Tests
