-- ===== src/KillSwitch.antt =====
-- infrastructure/kill_switch.py (class KillSwitch): the handlers of the emergency flatten API, the
-- background flatten task, and the REST adapter's status codes.
pub mod State
pub mod Mfa
pub mod Handlers
pub mod Flatten
pub mod Steps
pub mod Access
pub mod Order
pub mod Outcome
mod Tests
