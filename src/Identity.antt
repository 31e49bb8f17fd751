-- ===== src/Identity.antt =====
-- Roles and the authority checks of the store (crates/store/src/identity.rs).
pub mod Roles
pub mod RoleIds
pub mod Tables
pub mod Authority
pub mod Coverage
pub use Roles.*
pub use Tables.*
