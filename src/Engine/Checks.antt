-- ===== src/Engine/Checks.antt =====
-- crates/tracedb-query/src/lib.rs: what the writes of `TraceDb` check and gather before they commit.
use tracedb.Base.{
  codes, text_eq, decimal, ◌&&◌, none, some, List, [], ◌∷◌, ◌++◌, ◌==◌, if◌then◌else◌, is_empty,
  any, find, Result, ok, err, ensure, ◌>>=◌, ◌>>◌,
}
use tracedb.Core.Error.{TraceDbError, invalid_schema}
use tracedb.Core.Types.{
  Epoch, TableSchema, VectorColumnSchema, RecordInput, FeatureInvalidation, External,
}
use tracedb.Log.Commit.{ModuleCommitEvent}
use tracedb.Store.Record.{RecordStoreDelta}
use tracedb.Store.Read.{snapshot, all_visible_records}
use tracedb.Store.Plan.{plan_replacement_into}
use tracedb.Store.Replay.{known_table}
use tracedb.Engine.State.{
  TraceDb, table, module_events_for_schema, feature_invalidations_for_mutation,
}

-- The loop over the vector columns of the schema that exists.
unfoldable pub check_dimensions : TableSchema → List VectorColumnSchema → Result TraceDbError Unit
check_dimensions schema [] = ok tt
check_dimensions schema (existing ∷ vectors) =
    let rest = check_dimensions schema vectors in
    elim (find (λ vector. text_eq vector.name existing.name) schema.vector_columns) [
      | none ↦ rest
      | some vector ↦
          if vector.dimensions == existing.dimensions
          then rest
          else err (
              invalid_schema (
                codes "incompatible schema change for vector column "
                ++ (existing.name
                    ++ (codes ": existing committed rows use "
                        ++ (decimal existing.dimensions
                            ++ (codes " dimensions, new schema uses "
                                ++ decimal vector.dimensions))))))
    ]

module _ {V : Type 0} where
  unfoldable pub validate_schema_compatible : TableSchema → TraceDb V → Result TraceDbError Unit
  validate_schema_compatible schema db = elim (table schema.name db.manifest) [
    | none ↦ ok tt
    | some existing ↦
        if is_empty (all_visible_records (snapshot db.store db.manifest.latest_epoch) schema.name)
        then ok tt
        else (do
          ensure (text_eq schema.primary_id_column existing.primary_id_column) (
              invalid_schema (
                codes "incompatible schema change for table "
                ++ (schema.name
                    ++ codes ": primary id column cannot change after committed rows exist")))
          ensure (text_eq schema.tenant_id_column existing.tenant_id_column) (
              invalid_schema (
                codes "incompatible schema change for table "
                ++ (schema.name
                    ++ codes ": tenant id column cannot change after committed rows exist")))
          check_dimensions schema existing.vector_columns)
  ]

-- `put_batch` pushes a module event that it has not pushed before.
unfoldable pub push_events :
    List ModuleCommitEvent → List ModuleCommitEvent → List ModuleCommitEvent
push_events [] events = events
push_events (event ∷ more) events = push_events more (
    if any (λ seen. text_eq seen.module_id event.module_id && text_eq seen.event event.event) events
    then events
    else events ++ event ∷ [])

-- What the loop of `put_batch` has gathered.
pub record BatchPlan (V : Type 0) : Type 0 where
  pub delta : RecordStoreDelta V
  pub feature_invalidations : List FeatureInvalidation
  pub module_events : List ModuleCommitEvent

module _ {V : Type 0} ⦃x : External V⦄ where
  unfoldable pub plan_batch :
      TraceDb V → Epoch → List (RecordInput V) → BatchPlan V → Result TraceDbError (BatchPlan V)
  plan_batch db epoch [] plan = ok plan
  plan_batch db epoch (input ∷ inputs) plan = do
    schema ← known_table input.table db.manifest.schemas
    delta ← plan_replacement_into db.store plan.delta schema input epoch
    plan_batch db epoch inputs (record {
      delta = delta;
      feature_invalidations =
          plan.feature_invalidations ++ feature_invalidations_for_mutation schema input;
      module_events =
          push_events (module_events_for_schema (codes "record.put") schema) plan.module_events;
    })
