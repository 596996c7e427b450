-- ===== src/Planner.antt =====
-- crates/tracedb-planner/src/lib.rs: the choice of a strategy and of access paths.
pub mod Plan
pub mod Paths
mod Tests
