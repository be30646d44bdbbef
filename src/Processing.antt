-- ===== src/Processing.antt =====
-- Processing grants (src/reckoning/processing.py): what a destination of a model may be sent.
pub mod Grants
pub mod Scope
mod Tests
