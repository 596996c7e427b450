-- ===== src/Engine/Recovery.antt =====
-- crates/tracedb-query/src/lib.rs: a database that is opened again after any calls.
use mathlib.Core.List.{append-nil}
use tracedb.Base.{
  ◌+◌, ◌<◌, ◌^◌, Text, text_eq, text_eq_iff, false, Option, none, List, [], ◌∷◌, ◌++◌, ◌≡◌, sym,
  ◌∙◌, refl, arith, ok,
}
use tracedb.Base.Exec.{lift-keeps}
use tracedb.Core.Types.{TableSchema, External}
use tracedb.Core.Schema.{validate_schema}
use tracedb.Log.Commit.{IdempotencyReceipt}
use tracedb.Jobs.Catalog.{JobEvent, JobCatalog, apply_event}
use tracedb.Jobs.Engine.{replay_from}
use tracedb.Store.Replay.{find_table}
use tracedb.Engine.State.{
  TraceDb, Host, next_epoch, upsert_schema, bumped, bump_manifest, with_response,
}
use tracedb.Engine.Checks.{validate_schema_compatible}
use tracedb.Engine.Append.{IsWhole, append-keeps}
use tracedb.Engine.Writes.{append_job_event, job_commit, apply_schema, schema_commit}
use tracedb.Engine.Parts.{parts-Leaves}
use tracedb.Engine.Durable.{IsDurable, HasDistinctNames, append-IsDurable}
use tracedb.Engine.Steps.{next_epoch-eq}

-- A table that is not known is added behind the others.
pub upsert_schema_new :
    (schema : TableSchema) (schemas : List TableSchema)
    → find_table schema.name schemas ≡ none
    → upsert_schema schema schemas ≡ schemas ++ schema ∷ []
unfolding upsert_schema find_table
upsert_schema_new schema [] h = refl
upsert_schema_new schema (s ∷ schemas) h = ground (arith, upsert_schema_new schema schemas)

find_table-append_one :
    (name : Text) (schemas : List TableSchema) (schema : TableSchema)
    → find_table name schemas ≡ none
    → text_eq schema.name name ≡ false
    → find_table name (schemas ++ schema ∷ []) ≡ none
unfolding find_table
find_table-append_one name [] schema h other = ground arith
find_table-append_one name (s ∷ schemas) schema h other =
    ground (arith, find_table-append_one name schemas schema)

find_table-head :
    (name : Text) (s : TableSchema) (schemas : List TableSchema)
    → find_table name (s ∷ schemas) ≡ none
    → (text_eq s.name name ≡ false) × (find_table name schemas ≡ none)
unfolding find_table
find_table-head name s schemas h = ground arith

text_eq_swap : (s t : Text) → text_eq s t ≡ false → text_eq t s ≡ false
text_eq_swap s t h = ground (arith, text_eq_iff s t, text_eq_iff t s)

HasDistinctNames-append_one :
    (schemas : List TableSchema) (schema : TableSchema)
    → HasDistinctNames schemas
    → find_table schema.name schemas ≡ none
    → HasDistinctNames (schemas ++ schema ∷ [])
unfolding find_table
HasDistinctNames-append_one [] schema h new = (refl, tt)
HasDistinctNames-append_one (s ∷ schemas) schema h new =
    let (other, later) = find_table-head schema.name s schemas new in
    (
      find_table-append_one s.name schemas schema h.0 (text_eq_swap s.name schema.name other),
      HasDistinctNames-append_one schemas schema h.1 later,
    )

one_event :
    (event : JobEvent) (c planned : JobCatalog)
    → apply_event event c ≡ (ok tt, planned)
    → replay_from c (event ∷ []) ≡ ok planned
unfolding replay_from
one_event event c planned applied = ground (arith, applied)

module _ {V : Type 0} ⦃x : External V⦄ (host : Host V) (whole : IsWhole host) (db : TraceDb V)
    (durable : IsDurable db) (room : db.manifest.latest_epoch + 1 < 2 ^ 64) where
  pub append_job_event-IsDurable :
      (event : JobEvent) (planned : JobCatalog)
      → apply_event event db.job_catalog ≡ (ok tt, planned)
      → IsDurable (append_job_event host event planned db).1
  unfolding append_job_event bump_manifest
  append_job_event-IsDurable event planned applied =
      let epoch = next_epoch db.manifest.latest_epoch in
      let c = job_commit event epoch db in
      let after : TraceDb V = record db {
        manifest = bumped epoch db.manifest;
        log = db.log ++ c ∷ [];
        job_catalog = planned;
      } in
      let good =
        append-IsDurable db after c durable refl (sym (append-nil db.manifest.schemas))
          durable.names (sym (append-nil db.idempotency_receipts))
          (one_event event db.job_catalog planned applied) (next_epoch-eq _ room)
          (next_epoch-eq _ room) durable.sorted
          λ more st same.
            parts-Leaves _ _ st st st st db.store (λ _. refl) (λ s left. left) (λ s left. left)
              (λ s left j. left j ∙ same j) in
      append-keeps IsDurable host whole c _ db durable λ _.
        lift-keeps IsDurable (host.write_manifest after.manifest) _ after good
          λ _ _. lift-keeps IsDurable (host.write_job_catalog_file planned) _ after good λ _ _. good

  -- A schema of a table that is not there yet.
  pub apply_schema-IsDurable :
      (schema : TableSchema) (receipt : Option IdempotencyReceipt)
      → find_table schema.name db.manifest.schemas ≡ none
      → IsDurable (apply_schema host schema receipt db).1
  unfolding apply_schema bump_manifest
  apply_schema-IsDurable schema receipt new =
      let epoch = next_epoch db.manifest.latest_epoch in
      let c = schema_commit schema (with_response receipt (host.epoch_response epoch)) epoch db in
      let after : TraceDb V = record db {
        manifest =
            bumped epoch
              (record db.manifest { schemas = upsert_schema schema db.manifest.schemas });
        log = db.log ++ c ∷ [];
        idempotency_receipts = db.idempotency_receipts ++ c.idempotency_receipts;
      } in
      let added = upsert_schema_new schema db.manifest.schemas new in
      let good =
        append-IsDurable db after c durable refl added
          (rw added (HasDistinctNames-append_one db.manifest.schemas schema durable.names new)) refl
          (unfold replay_from in refl) (next_epoch-eq _ room) (next_epoch-eq _ room) durable.sorted
          λ more st same.
            parts-Leaves _ _ st st st st db.store (λ _. refl) (λ s left. left) (λ s left. left)
              (λ s left j. left j ∙ same j) in
      lift-keeps IsDurable (validate_schema schema) _ db durable λ _ _.
        lift-keeps IsDurable (validate_schema_compatible schema db) _ db durable λ _ _.
          append-keeps IsDurable host whole c _ db durable
            λ _. lift-keeps IsDurable (host.write_manifest after.manifest) _ after good λ _ _. good
