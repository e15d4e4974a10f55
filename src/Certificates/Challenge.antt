-- ===== src/Certificates/Challenge.antt =====
-- src/utils/cert_manager/challenge: the challenges of ACME.
pub mod Zones
pub mod Token
pub mod AcmeDns
pub mod Records
