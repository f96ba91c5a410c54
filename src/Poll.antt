-- ===== src/Poll.antt =====
-- The pollers of backend/internal/poll, which ask the other services what the webhooks missed.
pub mod Cursors
pub mod HistoryPages
pub mod History
pub mod Release
pub mod TvWaiting
pub mod Emit
pub mod Presence
pub mod SeerrRequests
pub mod ArrQueue
pub mod Jellyfin
pub mod Deliveries
pub mod Writes
