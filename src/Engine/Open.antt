-- ===== src/Engine/Open.antt =====
-- crates/tracedb-query/src/lib.rs: `open_with_options` from the scan of the log on, with the files of
-- the checkpoints in the host.
use tracedb.Base.{
  ◌==◌, leb, is_empty, codes, decimal, ensure, Text, Option, none, some, List, [], ◌∷◌, ◌++◌,
  if◌then◌else◌, ltb, keep, Result, ok, err, Bool, false, ◌>>=◌, ◌>>◌,
}
use tracedb.Core.Error.{TraceDbError, invalid_command, manifest_corruption}
use tracedb.Core.Types.{Epoch, TableSchema, External}
use tracedb.Log.Commit.{CommitRecord, IdempotencyReceipt}
use tracedb.Jobs.Catalog.{JobEvent, JobCatalog, default_catalog}
use tracedb.Jobs.Engine.{replay_from}
use tracedb.Store.Record.{RecordStore, default_store}
use tracedb.Store.Read.{from_checkpoint_records}
use tracedb.Store.Replay.{apply_commits}
use tracedb.Engine.State.{TraceDb, TraceDbManifest, Host, upsert_schema, bumped}

-- `for schema in &commit.schema_changes { upsert_schema(..) }`.
unfoldable pub upsert_all : List TableSchema → List TableSchema → List TableSchema
upsert_all [] schemas = schemas
upsert_all (schema ∷ changes) schemas = upsert_all changes (upsert_schema schema schemas)

module _ {V : Type 0} where
  -- `commits.iter().flat_map(..)`.
  abbrev pub flat_map : {A : Type 0} → (CommitRecord V → List A) → List (CommitRecord V) → List A
  flat_map f [] = []
  flat_map f (c ∷ commits) = f c ++ flat_map f commits

  abbrev pub schema_changes_of : List (CommitRecord V) → List TableSchema
  schema_changes_of commits = flat_map (λ c. c.schema_changes) commits

  abbrev pub receipts_of : List (CommitRecord V) → List IdempotencyReceipt
  receipts_of commits = flat_map (λ c. c.idempotency_receipts) commits

  abbrev pub job_events_of : List (CommitRecord V) → List JobEvent
  job_events_of commits = flat_map (λ c. c.job_events) commits

  abbrev pub last_commit : List (CommitRecord V) → Option (CommitRecord V)
  last_commit [] = none
  last_commit (c ∷ []) = some c
  last_commit (c ∷ (d ∷ commits)) = last_commit (d ∷ commits)

  -- The log is ahead of the manifest.
  unfoldable pub is_behind : TraceDbManifest → List (CommitRecord V) → Bool
  is_behind manifest commits = elim (last_commit commits) [
    | none ↦ false
    | some last ↦ ltb manifest.latest_epoch last.epoch
  ]

  unfoldable pub caught_up : TraceDbManifest → List (CommitRecord V) → TraceDbManifest
  unfolding is_behind
  caught_up manifest commits = elim (last_commit commits) [
    | none ↦ manifest
    | some last ↦ if is_behind manifest commits then bumped last.epoch manifest else manifest
  ]

abbrev pub checkpoint_ahead : TraceDbManifest → TraceDbError
checkpoint_ahead manifest = manifest_corruption (
    codes "checkpoint epoch "
    ++ (decimal manifest.checkpoint_epoch
        ++ (codes " exceeds latest epoch " ++ decimal manifest.latest_epoch)))

abbrev pub checkpoint_mismatch : Epoch → Epoch → TraceDbError
checkpoint_mismatch expected found = manifest_corruption (
    codes "checkpoint epoch mismatch: manifest "
    ++ (decimal expected ++ (codes ", file " ++ decimal found)))

module _ {V : Type 0} where
  unfoldable pub from_checkpoint : Host V → TraceDbManifest → Result TraceDbError (TraceDb V)
  from_checkpoint host manifest = do
    checkpoint ← host.read_checkpoint_file manifest.checkpoint_epoch
    ensure (checkpoint.epoch == manifest.checkpoint_epoch)
        (checkpoint_mismatch manifest.checkpoint_epoch checkpoint.epoch)
    ok (record {
      manifest = record manifest {
        schemas = if is_empty manifest.schemas then checkpoint.schemas else manifest.schemas;
      };
      store = from_checkpoint_records checkpoint.records;
      log = [];
      idempotency_receipts = checkpoint.idempotency_receipts;
      job_catalog = checkpoint.job_catalog;
    })

  -- The state that the commits are replayed on.
  unfoldable pub starting_state : Host V → TraceDbManifest → Result TraceDbError (TraceDb V)
  unfolding from_checkpoint
  starting_state host manifest = do
    ensure (leb manifest.checkpoint_epoch manifest.latest_epoch) (checkpoint_ahead manifest)
    (if ltb 0 manifest.checkpoint_epoch
        then from_checkpoint host manifest
        else ok (record {
          manifest = manifest;
          store = default_store;
          log = [];
          idempotency_receipts = [];
          job_catalog = default_catalog;
        }))

module _ {V : Type 0} ⦃x : External V⦄ where
  -- The jobs are replayed ahead of the records.
  abbrev pub assembled :
      TraceDb V
      → List (CommitRecord V)
      → Result Text JobCatalog
      → Result TraceDbError Unit × RecordStore V
      → Result TraceDbError (TraceDb V)
  assembled start commits (err e) (rebuilt, store) = err (invalid_command e)
  assembled start commits (ok catalog) (err e, store) = err e
  assembled start commits (ok catalog) (ok _, store) = ok (record start {
    store = store;
    log = commits;
    idempotency_receipts = start.idempotency_receipts ++ receipts_of commits;
    job_catalog = catalog;
  })

  -- The state that the commits after the checkpoint give, before the manifest catches up.
  unfoldable pub replayed : TraceDb V → List (CommitRecord V) → Result TraceDbError (TraceDb V)
  replayed start commits =
      let schemas = upsert_all (schema_changes_of commits) start.manifest.schemas in
      assembled (record start { manifest = record start.manifest { schemas = schemas } }) commits
        (replay_from start.job_catalog (job_events_of commits))
        (apply_commits schemas commits start.store)

  -- `manifest` is the one on disk.
  unfoldable pub open_database :
      Host V → TraceDbManifest → List (CommitRecord V) → Result TraceDbError (TraceDb V)
  unfolding replayed starting_state
  open_database host manifest all_commits = do
    start ← starting_state host manifest
    let commits = keep (λ c. ltb manifest.checkpoint_epoch c.epoch) all_commits
    db ← replayed start commits
    let after = caught_up db.manifest commits
    if is_behind db.manifest commits then host.write_manifest after else ok tt
    ok (record db { manifest = after })
