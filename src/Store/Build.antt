-- ===== src/Store/Build.antt =====
-- crates/tracedb-store/src/lib.rs: the record that a write stores, its fields and its features.
use tracedb.Base.{
  Text, codes, not, Option, none, some, List, [], ◌∷◌, if◌then◌else◌, is_some, is_empty, any,
  Result, ok, ensure, ◌>>◌,
}
use tracedb.Base.Map
use tracedb.Base.Map.{Map}
use tracedb.Core.Error.{TraceDbError, invalid_record}
use tracedb.Core.Types.{
  Epoch, TableSchema, VectorColumnSchema, RecordInput, DerivedFeatureState, FeatureStatus, External,
}
use tracedb.Core.Features.{ready, missing, dirty_from, source_hash, value_as_f32_vec}
use tracedb.Store.Record.{StoredRecord, record_key}
use tracedb.Store.Validate.{validate_record_identity, validate_vector_dimensions}

-- `features` of the version before, or none.
abbrev pub previous_features : {V : Type 0} → Option (StoredRecord V) → Map DerivedFeatureState
previous_features none = Map.empty
previous_features (some r) = r.features

abbrev pub previous_fields : {V : Type 0} → Option (StoredRecord V) → Map V
previous_fields none = Map.empty
previous_fields (some r) = r.fields

module _ {V : Type 0} ⦃x : External V⦄ where
  -- The state of one vector column, from the states kept so far.
  unfoldable pub feature_state_for :
      VectorColumnSchema → Map V → Map V → Map DerivedFeatureState → Epoch → DerivedFeatureState
  feature_state_for vector written merged_fields features epoch =
      let source_changed = any (λ source. Map.contains_key source written) vector.source_columns in
      let vector_changed = Map.contains_key vector.name written in
      let new_source_hash = source_hash merged_fields vector.source_columns in
      if vector_changed
      then ready vector.source_columns new_source_hash epoch
      else if source_changed
      then (elim (Map.get vector.name features) [
        | some state ↦ dirty_from state new_source_hash epoch
        | none ↦ record (missing vector.source_columns epoch) {
          source_hash = new_source_hash;
          status = FeatureStatus.dirty;
        }
      ])
      else elim (Map.get vector.name features) [
        | some state ↦ state
        | none ↦ elim (Map.get vector.name merged_fields) [
          | none ↦ missing vector.source_columns epoch
          | some value ↦
              if is_some (value_as_f32_vec value)
              then ready vector.source_columns new_source_hash epoch
              else missing vector.source_columns epoch
        ]
      ]

  -- The loop over `schema.vector_columns`.
  unfoldable pub build_vectors :
      List VectorColumnSchema
      → Map V
      → Map V
      → Map DerivedFeatureState
      → Epoch
      → Map DerivedFeatureState
  build_vectors [] written merged_fields features epoch = features
  build_vectors (vector ∷ vectors) written merged_fields features epoch =
      build_vectors vectors written merged_fields
        (Map.insert vector.name (feature_state_for vector written merged_fields features epoch)
          features)
        epoch

  unfoldable pub build_features :
      TableSchema
      → RecordInput V
      → Map V
      → Option (StoredRecord V)
      → Epoch
      → Map DerivedFeatureState
  unfolding build_vectors
  build_features schema mutation merged_fields previous epoch =
      build_vectors schema.vector_columns mutation.fields merged_fields (previous_features previous)
        epoch

  -- `StoredRecord { header: RecordHeader { .. }, fields, features }` of the two writes.
  abbrev pub new_version : RecordInput V → Epoch → Map V → Map DerivedFeatureState → StoredRecord V
  new_version input epoch fields features = record {
    header = record {
      record_id = input.id;
      table_id = input.table;
      tenant_id = input.tenant_id;
      schema_version = 1;
      begin_epoch = epoch;
      end_epoch = none;
      version_id = epoch;
      tombstone = none;
    };
    fields = fields;
    features = features;
  }

  -- A replacement writes both identity columns over the fields given.
  unfoldable pub replacement_fields : TableSchema → RecordInput V → Map V
  replacement_fields schema input =
      Map.insert schema.tenant_id_column (x.string input.tenant_id)
        (Map.insert schema.primary_id_column (x.string input.id) input.fields)

  unfoldable pub build_replacement_record :
      TableSchema → RecordInput V → Epoch → Result TraceDbError (Text × StoredRecord V)
  build_replacement_record schema input epoch = do
    validate_record_identity schema input none
    validate_vector_dimensions schema input
    ensure (not (is_empty input.tenant_id)) (invalid_record (codes "tenant id cannot be empty"))
    let key = record_key input.table input.tenant_id input.id
    let fields = replacement_fields schema input
    validate_record_identity schema input (some fields)
    let features = build_features schema input fields none epoch
    ok (key, new_version input epoch fields features)

  -- `if !merged_fields.contains_key(column) { merged_fields.insert(column, text) }`.
  abbrev pub insert_if_missing : Text → Text → Map V → Map V
  insert_if_missing column text fields =
      if Map.contains_key column fields then fields else Map.insert column (x.string text) fields

  -- A mutation merges the fields given into those of the live version.
  unfoldable pub merge_fields : TableSchema → RecordInput V → Option (StoredRecord V) → Map V
  merge_fields schema mutation previous =
      insert_if_missing schema.tenant_id_column mutation.tenant_id (
        insert_if_missing schema.primary_id_column mutation.id
          (Map.extend (previous_fields previous) mutation.fields))
