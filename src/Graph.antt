-- ===== src/Graph.antt =====
-- What the graph views draw: frontend/src/lib/graph/model.ts and frontend/src/lib/runtime/swarmModel.ts.
pub mod Collect
pub mod Topology
pub mod Swarm
pub mod Canvas
pub mod Labels
pub mod Workspace
pub mod Laws
mod Tests
