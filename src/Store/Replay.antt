-- ===== src/Store/Replay.antt =====
-- crates/tracedb-store/src/lib.rs: `apply_commits`, which rebuilds a store from commit records.
use tracedb.Base.{
  Text, codes, text_eq, trim, decimal, Bool, not, ◌&&◌, Option, none, some, List, [], ◌∷◌, ◌++◌,
  if◌then◌else◌, is_empty, any, find, find_last, Result, ok, err, ok_or,
}
use tracedb.Base.Exec.{Exec, pure, lift, gets, for_each, ◌>>=◌, ◌>>◌}
use tracedb.Base.Map
use tracedb.Base.Map.{Map, TextSet}
use tracedb.Core.Error.{TraceDbError, unknown_table, wal_corruption, not_found}
use tracedb.Core.Types.{
  Epoch, TableSchema, RecordInput, RecordDeletion, FeatureInvalidation, FeatureStatus,
  VectorColumnSchema, External,
}
use tracedb.Log.Commit.{CommitRecord}
use tracedb.Store.Record.{StoredRecord, RecordStore, is_live, default_store}
use tracedb.Store.Apply.{
  feature_path, apply_mutation, apply_replacement, apply_delete, apply_feature_invalidation,
}

-- `schemas.iter().find(|schema| schema.name == name)`.
unfoldable pub find_table : Text → List TableSchema → Option TableSchema
find_table name schemas = find (λ schema. text_eq schema.name name) schemas

-- `.ok_or_else(|| TraceDbError::UnknownTable(..))`.
unfoldable pub known_table : Text → List TableSchema → Result TraceDbError TableSchema
known_table name schemas = ok_or (find_table name schemas) (unknown_table name)

abbrev pub collect_set : List Text → TextSet
collect_set [] = Map.empty
collect_set (t ∷ ts) = Map.insert t tt (collect_set ts)

abbrev pub with_tenant : FeatureInvalidation → Text → FeatureInvalidation
with_tenant i tenant = record i { tenant_id = tenant }

-- `format!("ambiguous feature invalidation for {}.{}.{}", ..)`.
abbrev pub ambiguous : FeatureInvalidation → Text
ambiguous i =
    codes "ambiguous feature invalidation for "
    ++ (i.table ++ (codes "." ++ (i.record_id ++ (codes "." ++ i.feature))))

abbrev pub resolve_active : FeatureInvalidation → TextSet → Result TraceDbError FeatureInvalidation
resolve_active i [] = err (not_found (feature_path i))
resolve_active i ((tenant, _) ∷ []) = ok (with_tenant i tenant)
resolve_active i (_ ∷ (_ ∷ _)) = err (wal_corruption (ambiguous i))

module _ {V : Type 0} where
  -- The vector columns whose sources are written and that are not.
  abbrev pub is_outdated_by : Map V → VectorColumnSchema → Bool
  is_outdated_by written vector =
      not (Map.contains_key vector.name written)
      && any (λ source. Map.contains_key source written) vector.source_columns

  -- `FeatureInvalidation { .. }` of a write of the query engine.
  abbrev pub dirty_invalidation : RecordInput V → VectorColumnSchema → FeatureInvalidation
  dirty_invalidation input vector = record {
    table = input.table;
    tenant_id = input.tenant_id;
    record_id = input.id;
    feature = vector.name;
    status = FeatureStatus.dirty;
  }

  -- The tenants of the inputs of the commit that write the record.
  unfoldable pub commit_tenants : FeatureInvalidation → List (RecordInput V) → TextSet
  commit_tenants i [] = Map.empty
  commit_tenants i (input ∷ inputs) =
      let rest = commit_tenants i inputs in
      if text_eq input.table i.table
        && (text_eq input.id i.record_id && not (is_empty (trim input.tenant_id)))
      then Map.insert (trim input.tenant_id) tt rest
      else rest

  -- The last version that is live and has the table and the id of the invalidation.
  unfoldable pub active_version :
      FeatureInvalidation → List (StoredRecord V) → Option (StoredRecord V)
  active_version i versions =
      find_last
        (λ r.
          text_eq r.header.table_id i.table
          && (text_eq r.header.record_id i.record_id && is_live r))
        versions

  unfoldable pub active_feature_tenants :
      FeatureInvalidation → List (List (StoredRecord V)) → List Text
  active_feature_tenants i [] = []
  active_feature_tenants i (versions ∷ rest) =
      let tenants = active_feature_tenants i rest in
      elim (active_version i versions) [
        | none ↦ tenants
        | some r ↦
            if Map.contains_key i.feature r.features then r.header.tenant_id ∷ tenants else tenants
      ]

  abbrev pub resolve_among :
      FeatureInvalidation
      → CommitRecord V
      → RecordStore V
      → TextSet
      → Result TraceDbError FeatureInvalidation
  resolve_among i commit s [] =
      resolve_active i (collect_set (active_feature_tenants i (Map.values s.versions)))
  resolve_among i commit s ((tenant, _) ∷ []) = ok (with_tenant i tenant)
  resolve_among i commit s (_ ∷ (_ ∷ _)) =
      err (wal_corruption (ambiguous i ++ (codes " in commit " ++ decimal commit.transaction_id)))

  -- Commits from before tenants were stored leave the tenant blank.
  unfoldable pub resolve_legacy_feature_invalidation :
      FeatureInvalidation → CommitRecord V → RecordStore V → Result TraceDbError FeatureInvalidation
  resolve_legacy_feature_invalidation i commit s =
      resolve_among i commit s (commit_tenants i (commit.mutations ++ commit.replacements))

  unfoldable pub replay_deletion :
      List TableSchema → Epoch → RecordDeletion → Exec (RecordStore V) TraceDbError Unit
  replay_deletion schemas epoch deletion = do
    schema ← lift (known_table deletion.table schemas)
    apply_delete schema deletion epoch
    pure tt

  unfoldable pub replay_invalidation :
      CommitRecord V → FeatureInvalidation → Exec (RecordStore V) TraceDbError Unit
  replay_invalidation commit invalidation = do
    resolved ← gets (λ s.
        if is_empty (trim invalidation.tenant_id)
        then resolve_legacy_feature_invalidation invalidation commit s
        else ok invalidation)
    given ← lift resolved
    apply_feature_invalidation given commit.epoch
    pure tt

module _ {V : Type 0} ⦃x : External V⦄ where
  unfoldable pub replay_replacement :
      List TableSchema → Epoch → RecordInput V → Exec (RecordStore V) TraceDbError Unit
  replay_replacement schemas epoch replacement = do
    schema ← lift (known_table replacement.table schemas)
    apply_replacement schema replacement epoch
    pure tt

  unfoldable pub replay_mutation :
      List TableSchema → Epoch → RecordInput V → Exec (RecordStore V) TraceDbError Unit
  replay_mutation schemas epoch mutation = do
    schema ← lift (known_table mutation.table schemas)
    apply_mutation schema mutation epoch
    pure tt

  unfoldable pub apply_commit :
      List TableSchema → CommitRecord V → Exec (RecordStore V) TraceDbError Unit
  apply_commit schemas commit = do
    for_each (replay_replacement schemas commit.epoch) commit.replacements
    for_each (replay_mutation schemas commit.epoch) commit.mutations
    for_each (replay_deletion schemas commit.epoch) commit.deletions
    for_each (replay_invalidation commit) commit.feature_invalidations

  unfoldable pub apply_commits :
      List TableSchema → List (CommitRecord V) → Exec (RecordStore V) TraceDbError Unit
  apply_commits schemas commits = for_each (apply_commit schemas) commits

  unfoldable pub from_commits :
      List TableSchema → List (CommitRecord V) → Result TraceDbError (RecordStore V)
  unfolding apply_commits
  from_commits schemas commits =
      let replayed = apply_commits schemas commits default_store in
      elim replayed.0 [ err e ↦ err e | ok _ ↦ ok replayed.1 ]
