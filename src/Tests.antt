-- ===== src/Tests.antt =====
-- Concrete inputs: a codec, a service over the store in memory, and runs of the theorems on them.
mod Certificates
mod Fixture
mod Sql
mod StatusLists
mod Services
mod Reads
mod Http
mod Config
mod Health
mod Vault
mod Challenge
mod KeyVault
mod Acme
mod Storage
