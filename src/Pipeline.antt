-- ===== src/Pipeline.antt =====
-- The projector of backend/internal/pipeline.
pub mod Ops
pub mod Projector
pub mod Seasons
pub mod Fanout
pub mod Seerr
pub mod Tdarr
pub mod Grabs
pub mod Imports
pub mod Arrarr
pub mod Notices
pub mod Drain
pub mod Writes
pub mod Passes
pub mod Backlog
