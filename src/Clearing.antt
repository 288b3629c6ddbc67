-- ===== src/Clearing.antt =====
-- The clearing engine of infrastructure/dma_exchange.py.
pub mod Engine
pub mod Netting
pub mod Totals
pub mod Tests
