-- ===== src/Store.antt =====
-- crates/tracedb-store/src/lib.rs: the versioned record store.
pub mod Record
pub mod Validate
pub mod Build
pub mod Apply
pub mod Plan
pub mod Read
pub mod Versions
pub mod Writes
pub mod Isolation
pub mod Chain
pub mod Invariant
pub mod ReadBack
pub mod Keys
pub mod PlanApply
pub mod Replay
pub mod Dirty
pub mod Rebuild
pub mod Planned
pub mod Redundant
pub mod Sample
pub mod AnyWrite
mod Tests
