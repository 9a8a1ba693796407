-- ===== src/Config.antt =====
-- src/config/mod.rs: the configuration, its defaults and its validation.
pub mod Types
pub mod Defaults
pub mod Documents
pub mod Validate
pub mod Examples
pub use Types.*
