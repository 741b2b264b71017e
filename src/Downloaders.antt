-- ===== src/Downloaders.antt =====
-- The download clients: src/tuntu/downloaders and its contract.
pub mod Numbers
pub mod Snapshot
pub mod Client
pub mod Paths
pub mod Configuration
pub mod CloudDrive
