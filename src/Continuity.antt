-- ===== src/Continuity.antt =====
-- Reckonings (src/reckoning/continuity.py): drafts, records and the repository in memory.
pub mod Records
pub mod Drafts
pub mod Repository
mod Tests
