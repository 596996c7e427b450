-- ===== src/Log.antt =====
-- crates/tracedb-log/src/lib.rs: the write-ahead log.
pub mod Commit
pub mod Frame
pub mod Scan
pub mod File
pub mod Bytes
pub mod ReadFrame
pub mod Built
pub mod Rounds
pub mod Fuel
pub mod Recovery
pub mod Crash
pub mod Stray
mod Tests
