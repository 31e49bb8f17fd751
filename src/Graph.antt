-- ===== src/Graph.antt =====
-- The resource graph (crates/core/src/graph.rs).
pub mod Layers
pub mod Cycle
pub mod Rounds
pub mod Ready
pub mod Layering
pub mod Topology
pub mod Acyclic
pub mod Builder
mod Examples
pub use Layers.*
