-- ===== src/ExternalWrites.antt =====
-- connectors.py, external_write_store.py: writes to the outside that a user has authorized. A write
-- is prepared, approved or covered by a standing permission, claimed by a worker, dispatched, and
-- finalized with a receipt.
pub mod Records
pub mod Tables
pub mod InMemory
pub mod Sqlite
pub mod Repository
pub mod Service
pub mod Execution
pub mod Calls
pub mod Authority
pub mod Tests
