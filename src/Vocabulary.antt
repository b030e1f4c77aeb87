-- ===== src/Vocabulary.antt =====
-- How the machine names are spoken: frontend/src/lib/vocabulary.ts.
pub mod Events
pub mod Nodes
pub mod Scenarios
mod Tests
