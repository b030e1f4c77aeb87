-- ===== src/History.antt =====
-- The archive of runs: frontend/src/app/history.
pub mod Runs
pub mod Selection
pub mod Compare
