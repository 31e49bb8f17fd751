-- ===== src/Store.antt =====
-- The database of crates/store: the audit log and the tables that the store's operations read and
-- write.
pub mod Audit
pub mod Rows
pub mod Lookup
pub mod World
