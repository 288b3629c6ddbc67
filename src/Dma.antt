-- ===== src/Dma.antt =====
-- The order path and the rebates of infrastructure/dma_exchange.py.
pub mod Path
pub mod Runs
pub mod Books
pub mod Ids
pub mod Tests
