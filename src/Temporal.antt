-- ===== src/Temporal.antt =====
-- crates/tracedb-temporal/src/lib.rs: the index of the epochs at which a record holds.
pub mod Index
mod Tests
