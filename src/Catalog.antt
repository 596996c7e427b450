-- ===== src/Catalog.antt =====
-- crates/tracedb-catalog/src/lib.rs: the catalog of databases and branches.
pub mod Entries
pub mod Invariant
mod Tests
