-- ===== src/Server.antt =====
-- src/server: the HTTP surface of the service.
pub mod Conditional
pub mod Error
pub mod Constants
pub mod Request
pub mod Token
pub mod Reads
pub mod Auth
pub mod Handlers
pub mod Health
