-- ===== src/Graph.antt =====
-- The engagement graph, tools/graph: its data, its reducers, its validator and its runner.
pub mod Schema
pub mod Reducers
pub mod State
pub mod Routing
pub mod Validator
pub mod Runner
pub mod Memory
pub mod Handlers
pub mod Specialists
