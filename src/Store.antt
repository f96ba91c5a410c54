-- ===== src/Store.antt =====
-- The database of backend/internal/store.
pub mod Stages
pub mod Rows
pub mod Items
pub mod Requests
pub mod Transitions
pub mod Normalize
pub mod Downloads
pub mod Correlate
pub mod Decimal
pub mod Events
pub mod Tasks
pub mod Removal
pub mod Listing
pub mod Stuck
pub mod Paths
pub mod Writes
