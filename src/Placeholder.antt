-- ===== src/Placeholder.antt =====
-- Placeholders in strings: syntax, meaning and resolution (crates/core/src/placeholder.rs).
pub mod Types
pub mod Path
pub mod Scan
pub mod Total
pub mod Ref
pub mod RefLaws
pub mod Implicit
pub mod Expr
pub mod Json
pub mod Run
pub mod Resolve
pub mod Secrets
pub mod Origins
pub mod Sinks
pub mod NoPanic
pub mod Outputs
pub mod Collect
pub mod Collected
pub mod References
pub mod Examples
