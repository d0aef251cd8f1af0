-- ===== src/Archive.antt =====
-- src/archive.rs: the research archive of the matches.
pub mod Event
pub mod Compact
pub mod Snapshot
pub mod Hashed
pub mod Files
pub mod Pruned
pub mod Writer
pub mod Sealing
pub mod Lost
pub mod Log
pub mod Resealed
pub mod Rotated
pub mod Recorded
