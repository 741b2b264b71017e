-- ===== src/Downloads.antt =====
-- src/tuntu/downloads: the life of a download task.
pub mod State
pub mod Completion
pub mod Service
pub mod Poller
pub mod Traces
