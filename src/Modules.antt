-- ===== src/Modules.antt =====
-- crates/tracedb-modules/src/lib.rs: the registry of modules.
pub mod Registry
pub mod Invariant
mod Tests
