-- ===== src/Batch.antt =====
-- src/batch.rs: the batcher between the queue of matches and the sink.
pub mod Batcher
pub mod Prefix
pub mod Delivery
pub mod Run
