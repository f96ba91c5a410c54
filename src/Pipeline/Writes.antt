-- ===== src/Pipeline/Writes.antt =====
-- What a handler does to the database is a sequence of the statements of Store.Writes, whatever the
-- event and whatever the order of Go's maps: the modules below follow the handlers of
-- backend/internal/pipeline file by file.
pub mod Stages
pub mod Requests
pub mod Downloads
pub mod Failures
pub mod Passes
