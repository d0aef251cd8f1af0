-- ===== src/Parse.antt =====
-- src/parse.rs: CertStream frames.
pub mod Frame
pub mod Update
pub mod Leaf
