-- ===== src/Ids.antt =====
-- Identifiers and their validation rules (crates/core/src/ids.rs).
pub mod Types
pub mod Rules
pub mod Parse
pub mod ObjectId
pub mod Chars
pub mod RoundTrip
pub mod Examples
pub use Types.*
