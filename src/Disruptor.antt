-- ===== src/Disruptor.antt =====
-- The disruptor bus, infrastructure/disruptor.py.
pub mod Buffer
pub mod Window
pub mod Consumer
pub mod Order
pub mod Tests
