-- ===== src/Fpga.antt =====
-- infrastructure/fpga_sim.py: a tick through the stages of the simulated pipeline.
pub mod Frame
pub mod Units
pub mod Limits
pub mod Signals
pub mod Safety
pub mod Runs
pub mod Tests
