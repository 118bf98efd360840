-- ===== src/Stats.antt =====
-- core/src/stats.rs: what is measured of each link.
pub mod Link
pub mod Collector
mod Tests
