-- ===== src/BTreeMap.antt =====
-- `BTreeMap` and `BTreeSet` of Rust's standard library, which every component keeps its state in:
-- entries in the order of their keys, each key once.
mod Defs
pub mod Laws
pub mod Sorted
pub mod Equal
pub mod Length
pub mod Members
pub mod Sets
pub mod Again
unfoldable pub use Defs.*
