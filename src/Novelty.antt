-- ===== src/Novelty.antt =====
-- src/novelty.rs: the durable novelty store.
pub mod Table
pub mod Sql
pub mod Store
pub mod Atomic
pub mod Stuck
pub mod Capture
pub mod Counts
pub mod Partners
pub mod Keeps
pub mod Stable
