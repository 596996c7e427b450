-- ===== src/Engine.antt =====
-- crates/tracedb-query/src/lib.rs: the writes of `TraceDb` and its recovery.
pub mod State
pub mod Checks
pub mod Writes
pub mod Open
pub mod Durable
pub mod Parts
pub mod Steps
pub mod Recovery
pub mod Upserts
pub mod Reopen
pub mod Append
pub mod Appends
pub mod Calls
pub mod Forget
pub mod OnFile
pub mod Crash
mod CrashTests
mod Tests
