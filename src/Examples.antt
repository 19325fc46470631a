-- ===== src/Examples.antt =====
-- Concrete inputs, runs of the code on them, and the theorems at them.
pub mod Sample
mod Runs
mod Witnesses
mod Documents
mod Captures
pub mod Certificates
mod Generation
mod Searches
mod Candidates
mod Connections
