-- ===== src/Http.antt =====
-- src/http/mod.rs: what the proxy does with one request. Where the code waits, other tasks may
-- change the shared state; a parameter says what they do.
pub mod State
pub mod Buffer
pub mod Respond
pub mod Exchange
pub mod Retries
pub mod Attempts
pub mod Reasons
pub mod Ends
pub mod Handle
pub mod Permits
pub mod Served
pub mod Guard
pub mod Startup
pub mod FirstPass
pub mod Examples
