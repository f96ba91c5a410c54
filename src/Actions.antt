-- ===== src/Actions.antt =====
-- The interventions of backend/internal/actions.
pub mod Clients
pub mod Retry
pub mod Cancel
pub mod Writes
pub mod Resend
pub mod Menu
pub mod RemovalPlan
pub mod Remove
pub mod Canceled
