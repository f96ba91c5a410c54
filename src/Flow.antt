-- ===== src/Flow.antt =====
-- The control plane of backend/internal/flow.
pub mod Settings
pub mod Notices
pub mod Completion
pub mod Controller
pub mod Sweep
pub mod Kept
pub mod Queue
pub mod Due
pub mod Drained
pub mod Announcements
