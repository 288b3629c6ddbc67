-- ===== src/Raft.antt =====
-- infrastructure/raft.py: the nodes of the three-node cluster, their messages as direct calls, the
-- cluster's propose, and the RaftPSA decorator.
pub mod Node
pub mod Cluster
pub mod Runs
pub mod Leaders
pub mod Agreement
pub mod Psa
pub mod Stale
mod Tests
