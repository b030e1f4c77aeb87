-- ===== src/Runtime.antt =====
-- What the live demo derives from the recorded events: frontend/src/lib/runtime.
pub mod Provenance
pub mod Fields
pub mod TestRuns
pub mod Clock
pub mod Verdict
pub mod Incident
pub mod Narrative
pub mod Stage
pub mod Attach
mod Tests
