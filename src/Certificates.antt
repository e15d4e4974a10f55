-- ===== src/Certificates.antt =====
-- src/utils/cert_manager.rs and the modules below it: the material that tokens are signed with.
pub mod Storage
pub mod Manager
pub mod Provision
pub mod Challenge
pub mod Providers
pub mod Acme
