-- ===== src/Experiment.antt =====
-- Configurations of experiments: frontend/src/lib/experiment.
pub mod Config
pub mod Presets
pub mod Form
