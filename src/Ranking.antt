-- ===== src/Ranking.antt =====
-- The ranking document that the scorer writes and the agent reads: its rows, the document, and
-- the walk along it.
pub mod Check
pub mod Document
pub mod Walk
mod Tests
