-- ===== src/Interfaces.antt =====
-- interfaces.py: the sessions of the channels with their turns, and the placement of sources on
-- nodes.
pub mod Records
pub mod Sessions
pub mod Turns
pub mod Placement
pub mod Calls
pub mod Tests
