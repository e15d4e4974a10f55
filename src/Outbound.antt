-- ===== src/Outbound.antt =====
-- src/outbound: the adapters behind the ports.
pub mod Memory
pub mod Vault
pub mod KeyVault
pub mod Sql
