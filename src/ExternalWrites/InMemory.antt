-- ===== src/ExternalWrites/InMemory.antt =====
-- InMemoryExternalWriteRepository of external_write_store.py: the prepared writes with what
-- authorizes them, and their executions.
pub mod Writes
pub mod Executions
unfoldable pub use Writes.*
unfoldable pub use Executions.*
