-- ===== src/Domain/Bitpack.antt =====
-- src/domain/models/status_list.rs, lines 168 to 296 and 322 to 370: statuses as fields of `bits`
-- bits in a byte array, from the lowest bit of each byte.
pub mod Write
pub mod Read
pub mod Width
pub mod Byte
