-- ===== src/Keeper.antt =====
-- crates/tracedb-keeper/src/lib.rs: the commit service of the branches.
pub mod Service
pub mod Commits
pub mod Keys
mod Tests
