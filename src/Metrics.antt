-- ===== src/Metrics.antt =====
-- common/src/metrics.rs: counters, their snapshots and the history of these.
pub mod State
pub mod Counters
pub mod Snapshot
pub mod Trace
pub mod Summary
mod Tests
