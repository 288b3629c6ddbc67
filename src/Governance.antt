-- ===== src/Governance.antt =====
-- agents/agent_16_human_governance.py: the agent through which people decide.
pub mod Proposals
pub mod Agent
pub mod Tables
pub mod Runs
pub mod Decisions
pub mod Restart
pub mod Tests
