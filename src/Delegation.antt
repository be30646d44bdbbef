-- ===== src/Delegation.antt =====
-- delegation.py: bounded delegation of one task to a worker.
pub mod OwnerTools
pub mod Records
pub mod Runtime
pub mod Policy
pub mod Review
pub mod Collaborators
pub mod Coordinator
pub mod Tests
