-- ===== src/Planning.antt =====
-- Goals and plans (src/reckoning/planning.py): versions that are only ever added.
pub mod Records
pub mod Services
mod Tests
