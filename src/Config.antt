-- ===== src/Config.antt =====
-- common/src/config.rs: the configuration, its checks, and the manager that hands it to the tasks. The
-- records that one component alone reads stand with that component.
pub mod State
pub mod Params
pub mod Defaults
pub mod Manager
mod Tests
