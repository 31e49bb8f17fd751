-- ===== src/Graph/Builder.antt =====
-- The graph builder: requests, references and co-provisioned resources.
pub mod Types
pub mod Request
pub mod Expand
pub mod Dependents
pub mod Build
pub mod Valid
pub mod Requested
pub mod Universe
pub mod Gives
pub mod Expanded
pub mod Counting
pub mod Settled
pub mod Extends
pub mod Edges
pub mod Provided
pub mod Worked
pub mod Waits
pub mod Seeds
pub mod Input
pub mod Bound
pub mod Seeded
pub mod Deps
pub mod Outcome
mod Examples
