-- ===== src/Wire.antt =====
-- The wire protocol (common/src/protocol.rs): one module for each kind of packet.
pub mod Tags
pub mod Announce
pub mod Ack
pub mod Keepalive
pub mod Probe
pub mod Chunk
pub mod Stats
pub mod Packet
pub mod Flow
mod Tests
