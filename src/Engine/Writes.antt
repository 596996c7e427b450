-- ===== src/Engine/Writes.antt =====
-- crates/tracedb-query/src/lib.rs: the methods of `TraceDb` that write a commit, for a handle that is
-- not stale. Each plans on the store, appends the commit to the log and then changes the state.
use tracedb.Base.{
  Text, codes, text_eq, trim, not, Option, List, [], ◌∷◌, ◌++◌, is_empty, any, length, ensure,
}
use tracedb.Base.Exec.{Exec, pure, lift, gets, modify, ◌>>=◌, ◌>>◌}
use tracedb.Core.Error.{TraceDbError, invalid_record, invalid_command, not_found}
use tracedb.Core.Types.{
  Epoch, TableSchema, RecordInput, RecordDeletion, FeatureInvalidation, External,
}
use tracedb.Core.Schema.{validate_schema}
use tracedb.Log.Commit.{CommitRecord, IdempotencyReceipt, empty_commit}
use tracedb.Jobs.Catalog.{JobEvent, JobCatalog}
use tracedb.Store.Record.{RecordStoreDelta, default_delta, apply_delta}
use tracedb.Store.Plan.{plan_mutation, plan_replacement, plan_delete, plan_feature_invalidation}
use tracedb.Store.Apply.{feature_path}
use tracedb.Store.Replay.{known_table}
use tracedb.Engine.Checks.{validate_schema_compatible, plan_batch}
use tracedb.Engine.State.{
  TraceDb, Host, next_epoch, upsert_schema, module_events_for_schema, with_response,
  feature_invalidations_for_mutation, commit_for, append_to_log, bump_manifest,
}

module _ {V : Type 0} where
  -- `self.wal.append_commit(&commit)?`, `apply_delta`, the receipts and `bump_manifest`.
  unfoldable pub commit_delta :
      Host V → CommitRecord V → RecordStoreDelta V → Exec (TraceDb V) TraceDbError Epoch
  commit_delta host commit delta = do
    append_to_log host commit
    modify (λ db. record db {
      store = apply_delta delta db.store;
      idempotency_receipts = db.idempotency_receipts ++ commit.idempotency_receipts;
    })
    bump_manifest host commit.epoch
    pure commit.epoch

  abbrev pub schema_commit :
      TableSchema → List IdempotencyReceipt → Epoch → TraceDb V → CommitRecord V
  schema_commit schema receipts epoch db = record (empty_commit epoch epoch) {
    database_id = db.manifest.database_id;
    branch_id = db.manifest.branch_id;
    idempotency_receipts = receipts;
    schema_changes = schema ∷ [];
    module_events =
        record { module_id = codes "tracedb-kernel"; event = codes "schema.apply" }
        ∷ module_events_for_schema (codes "schema.apply") schema;
  }

  unfoldable pub apply_schema :
      Host V → TableSchema → Option IdempotencyReceipt → Exec (TraceDb V) TraceDbError Epoch
  apply_schema host schema receipt = do
    db ← gets (λ db. db)
    lift (validate_schema schema)
    lift (validate_schema_compatible schema db)
    let epoch = next_epoch db.manifest.latest_epoch
    let commit = schema_commit schema (with_response receipt (host.epoch_response epoch)) epoch db
    append_to_log host commit
    modify (λ db. record db {
      manifest = record db.manifest { schemas = upsert_schema schema db.manifest.schemas };
      idempotency_receipts = db.idempotency_receipts ++ commit.idempotency_receipts;
    })
    bump_manifest host epoch
    pure epoch

  unfoldable pub delete :
      Host V → RecordDeletion → Option IdempotencyReceipt → Exec (TraceDb V) TraceDbError Epoch
  delete host deletion receipt = do
    db ← gets (λ db. db)
    schema ← lift (known_table deletion.table db.manifest.schemas)
    let epoch = next_epoch db.manifest.latest_epoch
    delta ← lift (plan_delete db.store schema deletion epoch)
    commit_delta host
        (record (commit_for epoch db) {
          deletions = deletion ∷ [];
          module_events = module_events_for_schema (codes "record.delete") schema;
          idempotency_receipts = with_response receipt (host.deleted_response epoch);
        })
        delta

  unfoldable pub set_feature_status :
      Host V → FeatureInvalidation → Exec (TraceDb V) TraceDbError Epoch
  set_feature_status host invalidation = do
    lift (
        ensure (not (is_empty (trim invalidation.tenant_id)))
          (invalid_record (codes "tenant id cannot be empty")))
    db ← gets (λ db. db)
    schema ← lift (known_table invalidation.table db.manifest.schemas)
    lift (
        ensure (any (λ vector. text_eq vector.name invalidation.feature) schema.vector_columns)
          (not_found (feature_path invalidation)))
    let epoch = next_epoch db.manifest.latest_epoch
    delta ← lift (plan_feature_invalidation db.store invalidation epoch)
    commit_delta host
        (record (commit_for epoch db) {
          feature_invalidations = invalidation ∷ [];
          module_events =
              record { module_id = codes "tracedb-features"; event = codes "feature.status.set" }
              ∷ [];
        })
        delta

  unfoldable pub record_idempotency_receipt :
      Host V → IdempotencyReceipt → Exec (TraceDb V) TraceDbError Epoch
  record_idempotency_receipt host receipt = do
    db ← gets (λ db. db)
    commit_delta host
        (record (commit_for (next_epoch db.manifest.latest_epoch) db) {
          module_events =
              record { module_id = codes "tracedb-kernel"; event = codes "idempotency.receipt" }
              ∷ [];
          idempotency_receipts = receipt ∷ [];
        })
        default_delta

  abbrev pub job_commit : JobEvent → Epoch → TraceDb V → CommitRecord V
  job_commit event epoch db = record (commit_for epoch db) {
    module_events = record { module_id = codes "tracedb-jobs"; event = codes "job.event" } ∷ [];
    job_events = event ∷ [];
  }

  unfoldable pub append_job_event :
      Host V → JobEvent → JobCatalog → Exec (TraceDb V) TraceDbError Epoch
  append_job_event host event planned = do
    db ← gets (λ db. db)
    let epoch = next_epoch db.manifest.latest_epoch
    let commit = job_commit event epoch db
    append_to_log host commit
    modify (λ db. record db { job_catalog = planned })
    bump_manifest host epoch
    lift (host.write_job_catalog_file planned)
    pure epoch

module _ {V : Type 0} ⦃x : External V⦄ where
  -- `insert` and `patch`, which name their module event differently.
  unfoldable pub write_mutation :
      Text
      → Host V
      → RecordInput V
      → Option IdempotencyReceipt
      → Exec (TraceDb V) TraceDbError Epoch
  write_mutation event host input receipt = do
    db ← gets (λ db. db)
    schema ← lift (known_table input.table db.manifest.schemas)
    let epoch = next_epoch db.manifest.latest_epoch
    delta ← lift (plan_mutation db.store schema input epoch)
    commit_delta host
        (record (commit_for epoch db) {
          mutations = input ∷ [];
          feature_invalidations = feature_invalidations_for_mutation schema input;
          module_events = module_events_for_schema event schema;
          idempotency_receipts = with_response receipt (host.epoch_response epoch);
        })
        delta

  unfoldable pub insert :
      Host V → RecordInput V → Option IdempotencyReceipt → Exec (TraceDb V) TraceDbError Epoch
  unfolding write_mutation
  insert host input receipt = write_mutation (codes "insert.index") host input receipt

  unfoldable pub patch :
      Host V → RecordInput V → Option IdempotencyReceipt → Exec (TraceDb V) TraceDbError Epoch
  unfolding write_mutation
  patch host input receipt = write_mutation (codes "record.patch") host input receipt

  unfoldable pub put :
      Host V → RecordInput V → Option IdempotencyReceipt → Exec (TraceDb V) TraceDbError Epoch
  put host input receipt = do
    db ← gets (λ db. db)
    schema ← lift (known_table input.table db.manifest.schemas)
    let epoch = next_epoch db.manifest.latest_epoch
    delta ← lift (plan_replacement db.store schema input epoch)
    commit_delta host
        (record (commit_for epoch db) {
          replacements = input ∷ [];
          feature_invalidations = feature_invalidations_for_mutation schema input;
          module_events = module_events_for_schema (codes "record.put") schema;
          idempotency_receipts = with_response receipt (host.epoch_response epoch);
        })
        delta

  unfoldable pub put_batch :
      Host V
      → List (RecordInput V)
      → Option IdempotencyReceipt
      → Exec (TraceDb V) TraceDbError Epoch
  put_batch host records receipt = do
    lift (
        ensure (not (is_empty records))
          (invalid_command (codes "batch put requires at least one record")))
    db ← gets (λ db. db)
    let epoch = next_epoch db.manifest.latest_epoch
    plan ← lift (
        plan_batch db epoch records
          (record { delta = default_delta; feature_invalidations = []; module_events = [] }))
    commit_delta host
        (record (commit_for epoch db) {
          replacements = records;
          feature_invalidations = plan.feature_invalidations;
          module_events = plan.module_events;
          idempotency_receipts = with_response receipt (host.batch_response epoch (length records));
        })
        plan.delta
