-- ===== src/Outbound/Sql.antt =====
-- src/outbound/sql: the store behind a relational database.
pub mod Errors
pub mod Rows
pub mod Database
pub mod Store
pub mod Adapter
