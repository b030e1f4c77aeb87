-- ===== src/Api.antt =====
-- The requests to the backend: frontend/src/lib/api/client.ts and frontend/src/lib/runtime/client.ts.
-- What the network and the backend do with a request is an input.
pub mod Request
pub mod Experiments
pub mod Analysis
pub mod Sessions
mod Tests
