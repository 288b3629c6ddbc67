-- ===== src/Ring.antt =====
-- infrastructure/shared_memory_bus.py (class SharedRingBuffer, and the poll loop of
-- SharedMemoryBus): a ring of 2 ** width slots in shared memory.
pub mod Buffer
pub mod Window
pub mod Reader
mod Tests
