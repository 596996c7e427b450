-- ===== src/Segment.antt =====
-- crates/tracedb-segment/src/lib.rs: segments and their files.
pub mod Object
pub mod File
pub mod Published
mod Tests
