-- ===== src/Security.antt =====
-- What is derived of a run's security: frontend/src/lib/security.
pub mod Summary
pub mod Insights
pub mod Trace
