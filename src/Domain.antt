-- ===== src/Domain.antt =====
-- src/domain: the models, the packed status array, and the operations on status lists.
pub mod Model
pub mod Bitpack
pub mod StatusList
pub mod Ports
pub mod Service
