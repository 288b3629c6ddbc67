-- ===== src/DarkPool.antt =====
-- agents/agent_25_dark_pool.py: the engine that crosses orders against inventory.
pub mod Ats
pub mod Crossing
pub mod Routes
pub mod Runs
pub mod Tests
