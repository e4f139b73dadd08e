-- ===== src/Verdicts.antt =====
-- The verdicts on bad servers that the agent publishes and the scorer reads.
pub mod Read
pub mod Publish
pub mod Store
mod Tests
