-- ===== src/Bench.antt =====
-- The benchmark programs src/bin/benchmark_backend.rs and src/bin/benchmark_runner.rs.
pub mod BackendArgs
pub mod Backend
pub mod BackendLoop
pub mod Scenarios
pub mod RunnerArgs
pub mod Spawn
pub mod CommandLines
pub mod Replies
pub mod Wait
pub mod Dates
pub mod Processes
pub mod Leftovers
pub mod Examples
