-- ===== src/Node.antt =====
-- client/src/main.rs and server/src/main.rs: the tasks of the two programs, around the components.
pub mod State
pub mod Tasks
pub mod Steps
mod Tests
