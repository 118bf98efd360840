-- ===== src/Aggregator.antt =====
-- core/src/chunk_aggregator.rs: chunks of framed packets, and the aggregator that fills them.
pub mod Chunk
pub mod Ops
mod Tests
