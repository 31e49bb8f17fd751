-- ===== src/Canonical.antt =====
-- Canonical JSON texts (crates/core/src/canonical.rs).
pub mod Number
pub mod Write
pub mod Utf16
pub mod Order
pub mod Total
pub mod Examples
