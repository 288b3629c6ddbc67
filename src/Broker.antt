-- ===== src/Broker.antt =====
-- Credit lines and the broker router of infrastructure/prime_broker.py.
pub mod Credit
pub mod Router
pub mod Limits
pub mod Accounts
pub mod Selection
pub mod Venues
pub mod Routing
pub mod Costs
pub mod Tests
