-- ===== src/Watchlist.antt =====
-- src/watchlist.rs: the eTLD+1 watchlist and the inspection of a certificate's names.
pub mod Host
pub mod Names
pub mod Inspect
pub mod Keywords
pub mod Matching
pub mod Hot
