-- ===== src/Store/Validate.antt =====
-- crates/tracedb-store/src/lib.rs: the checks that a write passes before it is applied.
use tracedb.Base.{
  ℕ, Text, codes, text_eq, trim, Bool, true, false, not, Option, none, some, List, [], ◌∷◌, ◌++◌,
  ◌==◌, if◌then◌else◌, is_some, is_empty, all, length, unwrap_or, Result, ok, err, ensure, ◌>>◌,
}
use tracedb.Base.Map
use tracedb.Base.Map.{Map}
use tracedb.Core.Error.{TraceDbError, invalid_record, invalid_vector_dimensions}
use tracedb.Core.Types.{TableSchema, VectorColumnSchema, RecordInput, RecordDeletion, External}

unfoldable pub validate_deletion_identity : TableSchema → RecordDeletion → Result TraceDbError Unit
validate_deletion_identity schema deletion = do
  ensure (text_eq deletion.table schema.name) (
      invalid_record (
        codes "record table "
        ++ (deletion.table ++ (codes " does not match schema " ++ schema.name))))
  ensure (not (is_empty (trim deletion.id))) (invalid_record (codes "record id cannot be empty"))
  ensure (not (is_empty (trim deletion.tenant_id)))
      (invalid_record (codes "tenant id cannot be empty"))

module _ {V : Type 0} ⦃x : External V⦄ where
  -- `fields.get(column)` is absent, or a string equal to `expected`.
  unfoldable pub column_matches : Map V → Text → Text → Bool
  column_matches fields column expected = elim (Map.get column fields) [
    | none ↦ true
    | some value ↦ elim (x.as_str value) [ none ↦ false | some t ↦ text_eq t expected ]
  ]

  unfoldable pub validate_record_identity :
      TableSchema → RecordInput V → Option (Map V) → Result TraceDbError Unit
  unfolding column_matches
  validate_record_identity schema mutation given = do
    ensure (not (is_empty mutation.id)) (invalid_record (codes "record id cannot be empty"))
    ensure (not (is_empty mutation.tenant_id)) (invalid_record (codes "tenant id cannot be empty"))
    let fields = unwrap_or given mutation.fields
    ensure (column_matches fields schema.primary_id_column mutation.id) (
        invalid_record (
          codes "primary id field " ++ (schema.primary_id_column ++ codes " must match record id")))
    ensure (column_matches fields schema.tenant_id_column mutation.tenant_id) (
        invalid_record
          (codes "tenant field " ++ (schema.tenant_id_column ++ codes " must match tenant id")))

  unfoldable pub vector_dimension_count : V → Option ℕ
  vector_dimension_count value = elim (x.as_array value) [
    | none ↦ none
    | some array ↦ if all (λ item. is_some (x.as_f64 item)) array then some (length array) else none
  ]

  unfoldable pub validate_vectors : List VectorColumnSchema → Map V → Result TraceDbError Unit
  unfolding vector_dimension_count
  validate_vectors [] fields = ok tt
  validate_vectors (vector ∷ vectors) fields =
      let rest = validate_vectors vectors fields in
      elim (Map.get vector.name fields) [
        | none ↦ rest
        | some value ↦
            let actual = unwrap_or (vector_dimension_count value) 0 in
            if actual == vector.dimensions
            then rest
            else err (invalid_vector_dimensions vector.name vector.dimensions actual)
      ]

  unfoldable pub validate_vector_dimensions : TableSchema → RecordInput V → Result TraceDbError Unit
  unfolding validate_vectors
  validate_vector_dimensions schema mutation =
      validate_vectors schema.vector_columns mutation.fields

  unfoldable pub validate_mutation : TableSchema → RecordInput V → Result TraceDbError Unit
  validate_mutation schema mutation = do
    validate_record_identity schema mutation none
    validate_vector_dimensions schema mutation
