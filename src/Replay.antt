-- ===== src/Replay.antt =====
-- Replaying a recorded run: frontend/src/lib/replay, and its screen.
pub mod Controls
pub mod Screen
pub mod Player
pub mod Consistency
pub mod Load
mod Tests
