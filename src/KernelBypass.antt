-- ===== src/KernelBypass.antt =====
-- infrastructure/kernel_bypass.py: the ring of frames between a producer of ticks and its reader.
mod Feed
mod Adapter
mod Window
mod Frames
mod Queue
mod Runs
mod Tests
