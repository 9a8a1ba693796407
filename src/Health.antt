-- ===== src/Health.antt =====
-- src/health/mod.rs: the health of the backends. An operation takes the manager with the telemetry
-- that it shares, and returns both; it is one step, as if no other task ran inside it. The clock is
-- an argument, one reading for each call of `Instant::now`.
pub mod State
pub mod Manager
pub mod Checks
pub mod Breaker
pub mod Eligible
pub mod Threshold
pub mod Calls
pub mod Keeps
pub mod CheckSet
pub mod Pass
pub mod Up
pub mod Entries
pub mod Fit
pub mod Beside
pub mod Examples
