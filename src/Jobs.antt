-- ===== src/Jobs.antt =====
-- crates/tracedb-jobs/src/lib.rs: the job queue.
pub mod Job
pub mod Catalog
pub mod Valid
pub mod Engine
pub mod Replay
pub mod Commands
pub mod Lease
pub mod Fence
pub mod Features
mod Tests
