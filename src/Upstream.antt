-- ===== src/Upstream.antt =====
-- src/upstream/mod.rs: the client of the backends. The crates `http`, `hyper` and `url` are
-- parameters: what the code asks of them stands in `HeaderApi` and `Urls`.
pub mod Error
pub mod Headers
pub mod Sanitized
pub mod Body
pub mod Limits
pub mod Forward
pub mod Relayed
pub mod Examples
pub use Error.*
