-- ===== src/Tests.antt =====
-- Runs of the code on small inputs, and instances of the theorems about it.
mod Data
mod Watchlist
mod Novelty
mod Alert
mod Sink
mod Batch
mod Parse
mod Pipeline
mod Ingress
mod Config
mod Archive
mod AlertsFile
mod Status
mod Process
mod Egress
