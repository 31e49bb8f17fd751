-- ===== src/Rbac.antt =====
-- The permission model of the routes (crates/server/src/rbac.rs).
pub mod Evaluate
pub mod Ceiling
pub mod Deploy
pub mod Grants
pub mod Examples
pub use Evaluate.*
