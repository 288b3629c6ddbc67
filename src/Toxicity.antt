-- ===== src/Toxicity.antt =====
-- infrastructure/venue_toxicity.py: markouts by venue, and the choice of a venue.
pub mod Tracker
pub mod Choice
pub mod Books
pub mod Tests
