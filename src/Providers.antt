-- ===== src/Providers.antt =====
-- src/tuntu/providers: how the sources are run.
pub mod Runner
pub mod Manual
