-- ===== src/Outbound/Vault.antt =====
-- src/outbound/vault.rs: secrets in HashiCorp Vault or OpenBao.
pub mod Paths
pub mod Auth
pub mod Client
pub mod Builder
