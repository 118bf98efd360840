-- ===== src/Receiver.antt =====
-- core/src/receiver.rs: the reassembly buffer.
pub mod Slots
pub mod Buffer
mod Tests
