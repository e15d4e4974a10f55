-- ===== src/Config.antt =====
-- src/config.rs: the checks of the configuration, and what is made of it. Reading it from the
-- environment is the work of libraries.
pub mod Url
pub mod Database
pub mod Dns
pub mod Settings
