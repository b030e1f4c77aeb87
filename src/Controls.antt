-- ===== src/Controls.antt =====
-- The control of a run: frontend/src/lib/controls and lib/experiment/ExperimentProvider.tsx.
pub mod Reducer
pub mod Laws
pub mod Provider
pub mod Progress
pub mod Storage
mod Tests
