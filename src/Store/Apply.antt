-- ===== src/Store/Apply.antt =====
-- crates/tracedb-store/src/lib.rs: the writes of `RecordStore`. Each takes the store and gives back
-- the store that it leaves, also beside an error.
use tracedb.Base.{
  Text, codes, trim, not, none, some, List, [], ◌∷◌, ◌++◌, if◌then◌else◌, is_empty, find_last,
  modify_last, ensure, ok_or,
}
use tracedb.Base.Exec.{Exec, pure, lift, gets, modify, ◌>>=◌, ◌>>◌}
use tracedb.Base.Map
use tracedb.Core.Error.{TraceDbError, invalid_record, not_found}
use tracedb.Core.Types.{
  Epoch, TableSchema, RecordInput, RecordDeletion, FeatureInvalidation, DerivedFeatureState,
  External,
}
use tracedb.Store.Record.{
  StoredRecord, RecordStore, record_key, is_live, close, close_current, versions_at, put_versions,
}
use tracedb.Store.Validate.{
  validate_record_identity, validate_vector_dimensions, validate_deletion_identity,
}
use tracedb.Store.Build.{build_replacement_record, build_features, new_version, merge_fields}

-- `format!("{}:{}:{}", ..)`.
abbrev pub colon_joined : Text → Text → Text → Text
colon_joined a b c = a ++ (codes ":" ++ (b ++ (codes ":" ++ c)))

-- `format!("feature {}.{}.{}", ..)`.
abbrev pub feature_path : FeatureInvalidation → Text
feature_path i =
    codes "feature " ++ (i.table ++ (codes "." ++ (i.record_id ++ (codes "." ++ i.feature))))

abbrev pub tombstone_or_default : Text → Text
tombstone_or_default t = if is_empty (trim t) then codes "user_delete" else t

-- `state.status = ..; state.valid_for_epoch = ..`.
abbrev pub invalidated : FeatureInvalidation → Epoch → DerivedFeatureState → DerivedFeatureState
invalidated invalidation epoch state = record state {
  status = invalidation.status;
  valid_for_epoch = epoch;
}

module _ {V : Type 0} where
  unfoldable pub install_replacement : Text → StoredRecord V → Epoch → RecordStore V → RecordStore V
  install_replacement key new epoch s =
      put_versions key (close_current epoch (versions_at key s) ++ new ∷ []) s

  -- The tombstone version that a deletion appends.
  abbrev pub tombstone_version : RecordDeletion → Epoch → StoredRecord V → StoredRecord V
  tombstone_version deletion epoch previous = record {
    header = record {
      record_id = deletion.id;
      table_id = deletion.table;
      tenant_id = deletion.tenant_id;
      schema_version = previous.header.schema_version;
      begin_epoch = epoch;
      end_epoch = none;
      version_id = epoch;
      tombstone = some (tombstone_or_default deletion.tombstone);
    };
    fields = previous.fields;
    features = previous.features;
  }

  -- The deletion ends the live version, the last that is open and no tombstone.
  unfoldable pub close_live : Epoch → List (StoredRecord V) → List (StoredRecord V)
  close_live epoch versions = modify_last is_live (close epoch) versions

  unfoldable pub apply_delete :
      TableSchema → RecordDeletion → Epoch → Exec (RecordStore V) TraceDbError (StoredRecord V)
  apply_delete schema deletion epoch = do
    lift (validate_deletion_identity schema deletion)
    let key = record_key deletion.table deletion.tenant_id deletion.id
    let missing = not_found (colon_joined deletion.table deletion.tenant_id deletion.id)
    found ← gets (λ s. Map.get key s.versions)
    versions ← lift (ok_or found missing)
    previous ← lift (ok_or (find_last is_live versions) missing)
    let deleted = tombstone_version deletion epoch previous
    modify (put_versions key (close_live epoch versions ++ deleted ∷ []))
    pure deleted

  abbrev pub set_feature : Text → DerivedFeatureState → StoredRecord V → StoredRecord V
  set_feature feature state r = record r { features = Map.insert feature state r.features }

  unfoldable pub apply_feature_invalidation :
      FeatureInvalidation → Epoch → Exec (RecordStore V) TraceDbError DerivedFeatureState
  apply_feature_invalidation invalidation epoch = do
    let key = record_key invalidation.table invalidation.tenant_id invalidation.record_id
    let missing =
        not_found (colon_joined invalidation.table invalidation.tenant_id invalidation.record_id)
    found ← gets (λ s. Map.get key s.versions)
    versions ← lift (ok_or found missing)
    current ← lift (ok_or (find_last is_live versions) missing)
    state ← lift (
        ok_or (Map.get invalidation.feature current.features)
          (not_found (feature_path invalidation)))
    let after = invalidated invalidation epoch state
    modify
        (put_versions key (modify_last is_live (set_feature invalidation.feature after) versions))
    pure after

module _ {V : Type 0} ⦃x : External V⦄ where
  unfoldable pub apply_replacement :
      TableSchema → RecordInput V → Epoch → Exec (RecordStore V) TraceDbError (StoredRecord V)
  apply_replacement schema input epoch = do
    built ← lift (build_replacement_record schema input epoch)
    modify (install_replacement built.0 built.1 epoch)
    pure built.1

  unfoldable pub apply_replacement_without_return :
      TableSchema → RecordInput V → Epoch → Exec (RecordStore V) TraceDbError Unit
  apply_replacement_without_return schema input epoch = do
    built ← lift (build_replacement_record schema input epoch)
    modify (install_replacement built.0 built.1 epoch)

  -- The version before is closed ahead of the last check, so an error there leaves it closed.
  unfoldable pub apply_mutation :
      TableSchema → RecordInput V → Epoch → Exec (RecordStore V) TraceDbError (StoredRecord V)
  apply_mutation schema mutation epoch = do
    lift (validate_record_identity schema mutation none)
    lift (validate_vector_dimensions schema mutation)
    lift (
        ensure (not (is_empty mutation.tenant_id))
          (invalid_record (codes "tenant id cannot be empty")))
    let key = record_key mutation.table mutation.tenant_id mutation.id
    versions ← gets (versions_at key)
    let previous = find_last is_live versions
    modify (put_versions key (close_current epoch versions))
    let merged_fields = merge_fields schema mutation previous
    lift (validate_record_identity schema mutation (some merged_fields))
    let new =
        new_version mutation epoch merged_fields
          (build_features schema mutation merged_fields previous epoch)
    modify (put_versions key (close_current epoch versions ++ new ∷ []))
    pure new
