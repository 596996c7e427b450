-- ===== src/Query.antt =====
-- crates/tracedb-query/src/lib.rs: the reads of records and their cursors.
pub mod Cursor
pub mod Reads
pub mod Token
pub mod Signed
pub mod Paging
mod Tests
