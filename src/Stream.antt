-- ===== src/Stream.antt =====
-- The live event stream: frontend/src/lib/stream.
pub mod Types
pub mod Reducer
pub mod Window
pub mod Nodes
pub mod Counts
pub mod Connection
pub mod Series
pub mod Chart
pub mod Samples
mod Tests
