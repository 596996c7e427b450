-- ===== src/Lib.antt =====
-- TraceDB: a database of versioned records whose writes go through a write-ahead log.
--
-- The program's parts, the file that models each, and how they meet:
--   Base    shared helpers: lists over the native numbers, results, methods that change a state and
--           may fail (`Exec`), texts as lists of code points, `BTreeMap` as a sorted association list.
--   Core    crates/tracedb-core/src/lib.rs: schemas, record inputs, feature states, errors, and
--           `External`, the parameter that stands for serde_json, sha2 and the casts of floats.
--           Schema: `TableSchema::validate`; Sound: lemmas on it. Artifact: the envelope of an artifact,
--           with bincode and sha2 as the parameter `ArtifactCodec`; Envelope: lemmas on it.
--   Store   crates/tracedb-store/src/lib.rs. Record: versions, the store, deltas, keys. Validate and
--           Build: the checks of a write and the version that it stores. Apply: `apply_mutation`,
--           `apply_replacement`, `apply_delete`, `apply_feature_invalidation`. Plan: the `plan_.._into`
--           functions, which write to a delta. Read: reads at an epoch, scans, snapshots, checkpoints.
--           A write takes the store and gives back a result and the store that it leaves, also beside
--           an error. Replay: `apply_commits`, which rebuilds a store from commit records. Rebuild,
--           Dirty, Planned and Redundant: lemmas on the replay beside the planned writes. Versions,
--           Writes, Chain: lemmas on versions. AnyWrite: what holds of a write of
--           any kind. Sample: a small table for tests.
--   Log     crates/tracedb-log/src/lib.rs. Commit: what is stored and how it is encoded (`Codec`, a
--           parameter). Frame: the frame of a commit. Scan: `scan_file`. File: `Wal`, with the bytes of
--           its file as state. Commit records hold the record inputs of Core and the events of Jobs.
--   Jobs    crates/tracedb-jobs/src/lib.rs. Job: one job and its lease. Catalog: the operations of
--           `JobCatalog`. Engine: the job methods of crates/tracedb-query/src/lib.rs, which plan on a
--           copy of the catalog, append one event and keep the plan. Features:
--           crates/tracedb-features/src/lib.rs, the features whose computation is a job.
--   Engine  crates/tracedb-query/src/lib.rs. State: `TraceDb`, its manifest and `Host`, the parameter
--           that stands for the files, each of whose writes may fail, and for the responses. Checks and
--           Writes: the methods that commit, which plan on the Store, append a commit record of Log,
--           then change the state. Open: `open_with_options` from the scan of the log on. Append: the step
--           that appends. Durable, Parts, Steps, Recovery, Appends, Upserts, Reopen: lemmas on each method and on opening. Calls:
--           sequences of calls. The log is the list of commits that a scan gives; in OnFile the commits
--           go to the file of a `Wal`, and Crash opens that file again (Forget: opening does not read
--           the hash that chains the commits).
--   Query   crates/tracedb-query/src/lib.rs. Cursor: the signed cursors of paged reads, with base64,
--           serde_json and hmac as the parameter `CursorHost`; the time is an argument. Reads: `get`,
--           `scan`, `get_as`, `scan_as`. Token and Signed: lemmas on the cursors. Paging: a client that
--           reads page after page.
--   Segment crates/tracedb-segment/src/lib.rs. Object: segment objects, their digest and checks, with
--           serde_json and bincode as the parameter `SegmentCodec`. File: the bytes of a segment, and
--           its publication. Published: lemmas on them.
--   Cache   crates/tracedb-cache/src/lib.rs and crates/tracedb-segment-server/src/lib.rs. Lru: the cache
--           of references to segments, and the server of published ones. Window, Served: lemmas.
--   Schema  crates/tracedb-schema/src/lib.rs. Descriptor: the descriptor of a table and its
--           validation. Valid: lemmas on it.
--   Modules crates/tracedb-modules/src/lib.rs: `ModuleRegistry`; a module is what its methods return.
--   Planner crates/tracedb-planner/src/lib.rs: `plan_trace_query`.
--   Catalog crates/tracedb-catalog/src/lib.rs: the catalog of databases and branches.
--   Keeper  crates/tracedb-keeper/src/lib.rs: `BranchWalService`; the file system is the parameter
--           `Host`, with the trait `DurableWriteOps`.
--   Policy  crates/tracedb-policy/src/lib.rs: policies and the visibility oracle; Graph and Neighbors:
--           crates/tracedb-graph/src/lib.rs, which asks the oracle about each edge.
--   Temporal  crates/tracedb-temporal/src/lib.rs: the ranges of epochs of a record.
--
-- Numbers are natural numbers. Where the source adds on `u64` or `u32` and the sum is stored back, the
-- wrap of a release build is written out (`next_attempt`, `next_lsn`, `next_epoch`, the epochs of the keeper);
-- `saturating_add` is a minimum. A double is its bit pattern. `Arc::make_mut` copies before it writes,
-- so versions are values.
--
-- Loops are structural. The loop of `scan_file` runs on fuel, one more than the bytes of the file:
-- a round that goes on has read a frame, so more fuel changes nothing (Log/Fuel). The loop that shrinks the
-- cache runs on as much fuel as it has entries. `decimal` runs on one round
-- more than the number, which are more than its digits.
--
-- Not modelled: taking a checkpoint, the transactions of the engine, refresh_from_disk_if_stale and its
-- queries (TraceQL, hybrid retrieval); budgets and costs of the planner; the indexes, the scores of texts and
-- the distances of vectors, which are floating point; the constants that describe modules; servers and
-- command lines, which are input and output; the variants that measure time; locks. Errors of the operating
-- system are parameters in Keeper and Engine and are left out in Log, where a crash leaves any part of a
-- frame and Stray is about what a write that stops part-way leaves. The theorems on Engine are for
-- appends that write a frame which scans to its commit, or fail and write nothing (`IsWhole` in
-- Engine/Append). No law says that JSON
-- gives back what was encoded, since serde_json may change a double: `Decodes` says of one commit what its JSON
-- reads as.
pub mod Base
pub mod Cache
pub mod Catalog
pub mod Core
pub mod Engine
pub mod Jobs
pub mod Keeper
pub mod Log
pub mod Modules
pub mod Planner
pub mod Policy
pub mod Query
pub mod Schema
pub mod Segment
pub mod Store
pub mod Temporal
