-- ===== src/Permits.antt =====
-- Previews and destructive-action permits (crates/store/src/sqlite_permits.rs).
pub mod Types
pub mod Checks
pub mod Issuer
pub mod Bind
pub mod Bindable
pub mod BindLoop
pub mod BindAll
pub mod BindOutcome
pub mod Consume
pub mod ConsumeLoop
pub mod ConsumeOutcome
pub mod ConsumeLaws
pub mod Issue
pub mod Life
pub mod Used
pub mod UsePermit
pub mod UseErrors
pub mod UseOutcome
