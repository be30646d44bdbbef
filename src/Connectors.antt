-- ===== src/Connectors.antt =====
-- connectors.py and external_content.py: connections to outside sources that are read under a
-- granted scope, and their content, which never gets any authority.
pub mod Records
pub mod Content
pub mod Service
pub mod Synchronize
pub mod Calls
pub mod Tests
