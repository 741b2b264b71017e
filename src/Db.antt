-- ===== src/Db.antt =====
-- src/tuntu/db: the rows, the sessions and the repository's methods on download tasks.
pub mod Tables
pub mod Session
pub mod Downloads
pub mod Invariant
pub mod Progress
pub mod Later
pub mod Outcomes
pub mod Sources
pub mod Runs
pub mod Items
pub mod Results
pub mod Profiles
