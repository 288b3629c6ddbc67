-- ===== src/Supervisor.antt =====
-- agents/agent_13_portfolio_supervisor.py: the agent that halts, pauses and resumes the system.
pub mod State
pub mod Control
pub mod Trades
pub mod Runs
pub mod Halted
pub mod Limits
pub mod Stopouts
pub mod Recent
pub mod Holds
pub mod Pauses
pub mod Tests
