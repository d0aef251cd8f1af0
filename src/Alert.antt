-- ===== src/Alert.antt =====
-- src/novelty_alert.rs: from a match to an alert.
pub mod Policy
pub mod Brands
pub mod Process
pub mod Keys
pub mod Ensures
pub mod Funnel
pub mod Hubs
pub mod Counting
pub mod Gates
pub mod Stability
pub mod Recorded
pub mod FirstSeen
pub mod Once
pub mod Options
