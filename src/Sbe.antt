-- ===== src/Sbe.antt =====
-- The binary codec of the bus messages, infrastructure/sbe_codec.py.
pub mod Codec
pub mod RoundTrip
pub mod Tests
