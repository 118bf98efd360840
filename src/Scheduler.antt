-- ===== src/Scheduler.antt =====
-- core/src/link_scheduler.rs: which link carries the next chunk.
pub mod State
pub mod Weights
pub mod Select
pub mod Tiers
pub mod History
mod Tests
