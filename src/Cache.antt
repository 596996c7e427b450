-- ===== src/Cache.antt =====
-- crates/tracedb-cache/src/lib.rs: the cache of the segments that were used last.
pub mod Lru
pub mod Window
pub mod Served
mod Tests
