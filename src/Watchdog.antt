-- ===== src/Watchdog.antt =====
-- The bus and agent watchdog, infrastructure/watchdog.py.
pub mod Monitor
pub mod Edges
pub mod Silence
pub mod Reports
pub mod Tests
