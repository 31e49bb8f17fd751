-- ===== src/Sets.antt =====
-- Deployment sets and deltas (crates/core/src/sets.rs).
pub mod Types
pub mod Apply
pub mod Diff
pub mod PerWorkload
pub mod Loops
pub mod Refines
pub mod Equal
pub mod Serde
pub mod Differences
pub mod RoundTrip
pub mod Workload
pub mod Examples
