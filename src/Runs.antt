-- ===== src/Runs.antt =====
-- src/tuntu/runs/service.py: a run of a profile.
pub mod Actions
pub mod Stats
pub mod Settings
pub mod State
pub mod Submits
pub mod Evaluations
pub mod Items
pub mod Locks
pub mod Perform
pub mod Service
pub mod Kept
pub mod Quiet
pub mod Totals
pub mod Ends
