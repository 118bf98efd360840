-- ===== src/RateController.antt =====
-- core/src/rate_controller.rs: the rate and the path state of each link, from the probes.
pub mod State
pub mod Probe
pub mod Ops
mod Tests
