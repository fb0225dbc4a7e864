-- ===== src/Tests.antt =====
-- Concrete inputs of the theorems: a system, a session, tables and command lines.
pub mod Fixture
pub mod Tables
pub mod Sessions
pub mod Settings
pub mod Transfers
pub mod Clients
pub mod Uploads
