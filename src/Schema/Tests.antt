-- ===== src/Schema/Tests.antt =====
-- The validation of a table with a vector and its feature.
use tracedb.Base.{codes, List, [], ◌∷◌, ◌≡◌, ◌↔◌, ok, err, refl}
use tracedb.Schema.Descriptor.{
  LogicalType, TableDescriptor, new_table, new_column, primary_column, tenant_column, embedding,
  column, feature, validate_table,
}
use tracedb.Schema.Valid.{IsValidTable, validate_table_iff}

abbrev without_feature : TableDescriptor
without_feature =
    column (new_column (codes "v") (LogicalType.vector (codes "f32") 2 (codes "cosine"))) (
      column (tenant_column (codes "u"))
        (column (primary_column (codes "i") LogicalType.id) (new_table (codes "t"))))

abbrev notes : TableDescriptor
notes = feature (embedding (codes "v") (codes "i" ∷ []) (codes "m")) without_feature

accepted : validate_table notes ≡ ok tt
unfolding validate_table tracedb.Base.trim column feature
    tracedb.Schema.Descriptor.check_vector_columns tracedb.Schema.Descriptor.check_features
    tracedb.Schema.Descriptor.check_sources tracedb.Base.text_eq
accepted = refl

refused :
    validate_table (feature (embedding (codes "w") [] (codes "m")) without_feature)
    ≡ err (codes "feature w_feature targets missing column w")
unfolding validate_table tracedb.Base.trim column feature
    tracedb.Schema.Descriptor.check_vector_columns tracedb.Schema.Descriptor.check_features
    tracedb.Schema.Descriptor.check_sources tracedb.Base.text_eq
refused = refl

validate_table_iff_example : (validate_table notes ≡ ok tt) ↔ IsValidTable notes
validate_table_iff_example = validate_table_iff notes
