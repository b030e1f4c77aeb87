-- ===== src/Comparison.antt =====
-- Runs that are compared: frontend/src/lib/comparison, and frontend/src/lib/remediation.
pub mod Run
pub mod Pair
pub mod Arms
pub mod Trial
