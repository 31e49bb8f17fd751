-- ===== src/Deploy.antt =====
-- Acceptance of deployments (crates/store/src/deploy.rs, crates/store/src/sqlite.rs).
pub mod Types
pub mod Guards
pub mod Accept
pub mod Created
pub mod Laws
pub mod Accepted
pub mod Retry
pub mod Permits
pub mod Fixture
pub mod Examples
