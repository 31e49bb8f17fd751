-- ===== src/Criteria.antt =====
-- Matching resource definitions to a resource context (crates/core/src/criteria.rs).
pub mod Weight
pub mod Select
pub mod WeightLaws
pub mod Winners
pub mod Selected
pub mod Unique
pub mod Outcome
mod Examples
pub use Weight.*
pub use Select.*
