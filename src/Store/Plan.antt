-- ===== src/Store/Plan.antt =====
-- crates/tracedb-store/src/lib.rs: the planned writes, which read the store and write to a delta.
use tracedb.Base.{
  Text, codes, not, none, some, List, [], ◌∷◌, ◌++◌, is_empty, find_last, modify_last, Result, ok,
  ensure, ok_or, unwrap_or, ◌>>=◌, ◌>>◌,
}
use tracedb.Base.Map
use tracedb.Core.Error.{TraceDbError, invalid_record, not_found}
use tracedb.Core.Types.{
  Epoch, TableSchema, RecordInput, RecordDeletion, FeatureInvalidation, External,
}
use tracedb.Store.Record.{
  StoredRecord, RecordStore, RecordStoreDelta, default_delta, record_key, is_live, close_current,
  replace_versions,
}
use tracedb.Store.Validate.{
  validate_record_identity, validate_vector_dimensions, validate_deletion_identity,
}
use tracedb.Store.Build.{build_replacement_record, build_features, new_version, merge_fields}
use tracedb.Store.Apply.{
  colon_joined, feature_path, tombstone_version, close_live, invalidated, set_feature,
}

module _ {V : Type 0} where
  unfoldable pub versions_for_planning :
      RecordStore V → RecordStoreDelta V → Text → List (StoredRecord V)
  versions_for_planning s d key = elim (Map.get key d.versions_by_key) [
    | some versions ↦ versions
    | none ↦ unwrap_or (Map.get key s.versions) []
  ]

  unfoldable pub plan_replacement_record :
      RecordStore V → RecordStoreDelta V → Text → StoredRecord V → Epoch → RecordStoreDelta V
  plan_replacement_record s d key new epoch =
      replace_versions key (close_current epoch (versions_for_planning s d key) ++ new ∷ []) d

  unfoldable pub plan_delete_into :
      RecordStore V
      → RecordStoreDelta V
      → TableSchema
      → RecordDeletion
      → Epoch
      → Result TraceDbError (RecordStoreDelta V)
  plan_delete_into s d schema deletion epoch = do
    validate_deletion_identity schema deletion
    let key = record_key deletion.table deletion.tenant_id deletion.id
    let missing = not_found (colon_joined deletion.table deletion.tenant_id deletion.id)
    let versions = versions_for_planning s d key
    ensure (not (is_empty versions)) missing
    previous ← ok_or (find_last is_live versions) missing
    ok (
        replace_versions key
          (close_live epoch versions ++ tombstone_version deletion epoch previous ∷ []) d)

  unfoldable pub plan_feature_invalidation_into :
      RecordStore V
      → RecordStoreDelta V
      → FeatureInvalidation
      → Epoch
      → Result TraceDbError (RecordStoreDelta V)
  plan_feature_invalidation_into s d invalidation epoch = do
    let key = record_key invalidation.table invalidation.tenant_id invalidation.record_id
    let missing =
        not_found (colon_joined invalidation.table invalidation.tenant_id invalidation.record_id)
    let versions = versions_for_planning s d key
    ensure (not (is_empty versions)) missing
    current ← ok_or (find_last is_live versions) missing
    state ←
        ok_or (Map.get invalidation.feature current.features)
          (not_found (feature_path invalidation))
    let after = invalidated invalidation epoch state
    ok (
        replace_versions key (modify_last is_live (set_feature invalidation.feature after) versions)
          d)

  -- The planned writes on a delta of their own.
  abbrev pub plan_delete :
      RecordStore V
      → TableSchema
      → RecordDeletion
      → Epoch
      → Result TraceDbError (RecordStoreDelta V)
  plan_delete s schema deletion epoch = plan_delete_into s default_delta schema deletion epoch

  abbrev pub plan_feature_invalidation :
      RecordStore V → FeatureInvalidation → Epoch → Result TraceDbError (RecordStoreDelta V)
  plan_feature_invalidation s invalidation epoch =
      plan_feature_invalidation_into s default_delta invalidation epoch

module _ {V : Type 0} ⦃x : External V⦄ where
  unfoldable pub plan_replacement_into :
      RecordStore V
      → RecordStoreDelta V
      → TableSchema
      → RecordInput V
      → Epoch
      → Result TraceDbError (RecordStoreDelta V)
  plan_replacement_into s d schema input epoch = do
    built ← build_replacement_record schema input epoch
    ok (plan_replacement_record s d built.0 built.1 epoch)

  unfoldable pub plan_mutation_into :
      RecordStore V
      → RecordStoreDelta V
      → TableSchema
      → RecordInput V
      → Epoch
      → Result TraceDbError (RecordStoreDelta V)
  plan_mutation_into s d schema mutation epoch = do
    validate_record_identity schema mutation none
    validate_vector_dimensions schema mutation
    ensure (not (is_empty mutation.tenant_id)) (invalid_record (codes "tenant id cannot be empty"))
    let key = record_key mutation.table mutation.tenant_id mutation.id
    let versions = versions_for_planning s d key
    let previous = find_last is_live versions
    let merged_fields = merge_fields schema mutation previous
    validate_record_identity schema mutation (some merged_fields)
    let new =
        new_version mutation epoch merged_fields
          (build_features schema mutation merged_fields previous epoch)
    ok (replace_versions key (close_current epoch versions ++ new ∷ []) d)

  abbrev pub plan_replacement :
      RecordStore V → TableSchema → RecordInput V → Epoch → Result TraceDbError (RecordStoreDelta V)
  plan_replacement s schema input epoch = plan_replacement_into s default_delta schema input epoch

  abbrev pub plan_mutation :
      RecordStore V → TableSchema → RecordInput V → Epoch → Result TraceDbError (RecordStoreDelta V)
  plan_mutation s schema mutation epoch = plan_mutation_into s default_delta schema mutation epoch
