-- ===== src/Runs/Ends.antt =====
-- Every run that is created ends.
pub mod Sources
pub mod Over
pub mod Created
pub mod Executions
