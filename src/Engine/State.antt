-- ===== src/Engine/State.antt =====
-- crates/tracedb-query/src/lib.rs and crates/tracedb-core/src/lib.rs: the state of an open database.
-- The fields of the manifest that no write reads, the checksums, the file handles, the lock and the
-- cache of lexical corpora are left out.
use tracedb.Base.{
  ℕ, ◌+◌, ◌%◌, ◌^◌, Text, codes, text_eq, Option, none, some, List, [], ◌∷◌, ◌++◌, if◌then◌else◌,
  is_empty, map, keep, Result,
}
use tracedb.Base.Exec.{Exec}
use tracedb.Core.Error.{TraceDbError}
use tracedb.Core.Types.{Epoch, TableSchema, RecordInput, FeatureInvalidation}
use tracedb.Log.Commit.{CommitRecord, ModuleCommitEvent, IdempotencyReceipt, empty_commit}
use tracedb.Jobs.Catalog.{JobCatalog}
use tracedb.Store.Record.{StoredRecord, RecordStore}
use tracedb.Store.Replay.{find_table, is_outdated_by, dirty_invalidation}

-- `Epoch(self.0 + 1)` on a `u64`, which wraps in a release build.
abbrev pub next_epoch : Epoch → Epoch
next_epoch epoch = (epoch + 1) % 2 ^ 64

pub record TraceDbManifest : Type 0 where
  pub manifest_generation : ℕ
  pub database_id : Text
  pub branch_id : Text
  pub latest_epoch : Epoch
  pub durable_epoch : Epoch
  pub checkpoint_epoch : Epoch
  pub schemas : List TableSchema

-- `TraceDbManifest::empty`.
abbrev pub empty_manifest : Text → TraceDbManifest
empty_manifest database_id = record {
  manifest_generation = 1;
  database_id = database_id;
  branch_id = codes "main";
  latest_epoch = 0;
  durable_epoch = 0;
  checkpoint_epoch = 0;
  schemas = [];
}

-- `log` is what a scan of the write-ahead log gives.
pub record TraceDb (V : Type 0) : Type 0 where
  pub manifest : TraceDbManifest
  pub store : RecordStore V
  pub log : List (CommitRecord V)
  pub idempotency_receipts : List IdempotencyReceipt
  pub job_catalog : JobCatalog

-- `CheckpointFile`, as it is read; the version of its format and its digest are checked there.
pub record CheckpointFile (V : Type 0) : Type 0 where
  pub epoch : Epoch
  pub schemas : List TableSchema
  pub records : List (StoredRecord V)
  pub idempotency_receipts : List IdempotencyReceipt
  pub job_catalog : JobCatalog

-- The files and serde_json: an append to the log, a write of the manifest or of the file of the
-- jobs may fail, and `http_ok_json` prints the response for an epoch, for a batch or for a deletion.
-- An append gives a result and the log that a scan then finds, which may hold the commit beside an
-- error, where the write went through and its `sync_data` did not.
pub record Host (V : Type 0) : Type 0 where
  pub append_commit : CommitRecord V → Exec (List (CommitRecord V)) TraceDbError Unit
  pub read_checkpoint_file : Epoch → Result TraceDbError (CheckpointFile V)
  pub write_manifest : TraceDbManifest → Result TraceDbError Unit
  pub write_job_catalog_file : JobCatalog → Result TraceDbError Unit
  pub epoch_response : Epoch → Text
  pub batch_response : Epoch → ℕ → Text
  pub deleted_response : Epoch → Text

-- `manifest.table(name)`.
abbrev pub table : Text → TraceDbManifest → Option TableSchema
table name manifest = find_table name manifest.schemas

unfoldable pub upsert_schema : TableSchema → List TableSchema → List TableSchema
upsert_schema schema [] = schema ∷ []
upsert_schema schema (existing ∷ schemas) =
    let rest = upsert_schema schema schemas in
    if text_eq existing.name schema.name then schema ∷ schemas else existing ∷ rest

unfoldable pub module_events_for_schema : Text → TableSchema → List ModuleCommitEvent
module_events_for_schema event schema =
    (if is_empty schema.text_indexed_columns
      then []
      else record { module_id = codes "tracedb-text"; event = event } ∷ [])
    ++ (if is_empty schema.vector_columns
        then []
        else record { module_id = codes "tracedb-vector"; event = event } ∷ [])

abbrev pub with_response : Option IdempotencyReceipt → Text → List IdempotencyReceipt
with_response none response = []
with_response (some receipt) response = record receipt { response = response } ∷ []

abbrev pub bumped : Epoch → TraceDbManifest → TraceDbManifest
bumped epoch manifest = record manifest {
  latest_epoch = epoch;
  durable_epoch = epoch;
  manifest_generation = (manifest.manifest_generation + 1) % 2 ^ 64;
}

module _ {V : Type 0} where
  unfoldable pub feature_invalidations_for_mutation :
      TableSchema → RecordInput V → List FeatureInvalidation
  feature_invalidations_for_mutation schema input =
      map (dirty_invalidation input) (keep (is_outdated_by input.fields) schema.vector_columns)

  -- `CommitRecord::empty(epoch.get(), epoch).for_database(..)` with the epochs of the schema and the
  -- policy.
  abbrev pub commit_for : Epoch → TraceDb V → CommitRecord V
  commit_for epoch db = record (empty_commit epoch epoch) {
    database_id = db.manifest.database_id;
    branch_id = db.manifest.branch_id;
    schema_epoch = db.manifest.latest_epoch;
    policy_epoch = db.manifest.latest_epoch;
  }

  -- `self.wal.append_commit(&commit)`.
  unfoldable pub append_to_log : Host V → CommitRecord V → Exec (TraceDb V) TraceDbError Unit
  append_to_log host commit db =
      let left = host.append_commit commit db.log in (left.0, record db { log = left.1 })

  -- The manifest in memory is changed before it is written.
  unfoldable pub bump_manifest : Host V → Epoch → Exec (TraceDb V) TraceDbError Unit
  bump_manifest host epoch db =
      let after = record db { manifest = bumped epoch db.manifest } in
      (host.write_manifest after.manifest, after)
