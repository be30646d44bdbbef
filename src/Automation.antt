-- ===== src/Automation.antt =====
-- automation.py: routines, their runs, watches and briefings.
pub mod Records
pub mod Repository
pub mod Claims
pub mod Service
pub mod Runner
pub mod Watch
pub mod Briefing
pub mod Tests
