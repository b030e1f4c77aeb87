-- ===== src/Demo.antt =====
-- The screen of the live demo: frontend/src/app/demo.
pub mod Page
