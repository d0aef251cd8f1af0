-- ===== src/Sink.antt =====
-- src/novelty_sink.rs: the sink that turns batches of matches into lines of alerts.jsonl.
pub mod Send
pub mod Lines
pub mod Unique
