-- ===== src/Policy.antt =====
-- crates/tracedb-policy/src/lib.rs, and the graph of crates/tracedb-graph/src/lib.rs, which asks it.
pub mod Oracle
pub mod Graph
pub mod Neighbors
mod Tests
