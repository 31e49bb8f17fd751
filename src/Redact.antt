-- ===== src/Redact.antt =====
-- Redaction of secret values in text (crates/core/src/redact.rs).
pub mod Find
pub mod Ranges
pub mod Redactor
pub mod Clean
pub mod Examples
