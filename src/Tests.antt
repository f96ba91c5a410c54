-- ===== src/Tests.antt =====
-- Runs of the modelled code on concrete data.
pub mod Samples
pub mod Store
pub mod Pipeline
pub mod Flow
pub mod Alert
pub mod Poll
pub mod Removal
pub mod Ingest
pub mod Storage
pub mod Auth
pub mod Updates
pub mod Broker
pub mod Listing
pub mod Menu
