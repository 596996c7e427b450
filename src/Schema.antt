-- ===== src/Schema.antt =====
-- crates/tracedb-schema/src/lib.rs: the descriptors of tables.
pub mod Descriptor
pub mod Valid
mod Tests
