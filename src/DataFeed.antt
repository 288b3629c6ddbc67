-- ===== src/DataFeed.antt =====
-- data/feed.py, and the test of its sequence numbers in agents/agent_03_data_integrity.py.
mod Ticks
mod Caches
mod Runs
mod Sequence
mod Gaps
mod Tests
