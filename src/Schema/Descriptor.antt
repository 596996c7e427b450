-- ===== src/Schema/Descriptor.antt =====
-- crates/tracedb-schema/src/lib.rs: the descriptor of a table, how it is built and its validation.
use tracedb.Base.{
  ℕ, ◌==◌, ◌++◌, Text, codes, text_eq, trim, Bool, true, false, not, List, [], ◌∷◌, is_empty, any,
  Result, ok, ensure, ◌>>◌,
}

pub data LogicalType : Type 0 where
  bool int64 float64 text text_indexed json id timestamp blob_ref : LogicalType
  vector : Text → ℕ → Text → LogicalType
  sparse_vector multi_vector : LogicalType
  edge : Text → LogicalType
  temporal_range policy provenance activation_state suppression_state : LogicalType

pub record ColumnDescriptor : Type 0 where
  pub name : Text
  pub logical_type : LogicalType
  pub primary : Bool
  pub tenant : Bool
  pub nullable : Bool

-- `ColumnDescriptor::new`, `primary` and `tenant`.
abbrev pub new_column : Text → LogicalType → ColumnDescriptor
new_column name logical_type = record {
  name = name;
  logical_type = logical_type;
  primary = false;
  tenant = false;
  nullable = true;
}

abbrev pub primary_column : Text → LogicalType → ColumnDescriptor
primary_column name logical_type = record (new_column name logical_type) {
  primary = true;
  nullable = false;
}

abbrev pub tenant_column : Text → ColumnDescriptor
tenant_column name = record (new_column name LogicalType.id) { tenant = true; nullable = false }

pub record IndexDescriptor : Type 0 where
  pub name : Text
  pub kind : Text
  pub columns : List Text
  pub policy_aware : Bool

pub record FeatureDescriptor : Type 0 where
  pub name : Text
  pub target_column : Text
  pub source_columns : List Text
  pub model_id : Text

-- `FeatureDescriptor::embedding`.
abbrev pub embedding : Text → List Text → Text → FeatureDescriptor
embedding target_column source_columns model_id = record {
  name = target_column ++ codes "_feature";
  target_column = target_column;
  source_columns = source_columns;
  model_id = model_id;
}

pub record PolicyDescriptor : Type 0 where
  pub name : Text
  pub required_tenant_column : Text

pub record EdgeTableDescriptor : Type 0 where
  pub name : Text
  pub target_table : Text

pub record ModuleRequirement : Type 0 where
  pub module_id : Text
  pub min_version : Text

pub record TableDescriptor : Type 0 where
  pub table_id : Text
  pub name : Text
  pub schema_version : ℕ
  pub columns : List ColumnDescriptor
  pub indexes : List IndexDescriptor
  pub features : List FeatureDescriptor
  pub policies : List PolicyDescriptor
  pub edge_tables : List EdgeTableDescriptor
  pub module_requirements : List ModuleRequirement

-- `TableDescriptor::new`.
abbrev pub new_table : Text → TableDescriptor
new_table name = record {
  table_id = codes "table:" ++ name;
  name = name;
  schema_version = 1;
  columns = [];
  indexes = [];
  features = [];
  policies = [];
  edge_tables = [];
  module_requirements = [];
}

unfoldable pub column : ColumnDescriptor → TableDescriptor → TableDescriptor
column c table = record table { columns = table.columns ++ c ∷ [] }

unfoldable pub feature : FeatureDescriptor → TableDescriptor → TableDescriptor
feature f table = record table { features = table.features ++ f ∷ [] }

unfoldable pub edge_table : EdgeTableDescriptor → TableDescriptor → TableDescriptor
edge_table e table = record table { edge_tables = table.edge_tables ++ e ∷ [] }

unfoldable pub module_requirement : ModuleRequirement → TableDescriptor → TableDescriptor
module_requirement requirement table = record table {
  module_requirements = table.module_requirements ++ requirement ∷ [];
}

abbrev pub has_dimensions : LogicalType → Bool
has_dimensions (LogicalType.vector _ dimensions _) = not (dimensions == 0)
has_dimensions _ = true

-- `for column in &self.columns`.
unfoldable pub check_vector_columns : List ColumnDescriptor → Result Text Unit
check_vector_columns [] = ok tt
check_vector_columns (c ∷ columns) =
    ensure (has_dimensions c.logical_type)
      (codes "vector column " ++ (c.name ++ codes " has zero dimensions"))
    >> check_vector_columns columns

abbrev pub is_column : List ColumnDescriptor → Text → Bool
is_column columns name = any (λ c. text_eq c.name name) columns

-- `for source in &feature.source_columns`.
unfoldable pub check_sources : List ColumnDescriptor → Text → List Text → Result Text Unit
check_sources columns feature_name [] = ok tt
check_sources columns feature_name (source ∷ sources) =
    ensure (is_column columns source)
      (codes "feature " ++ (feature_name ++ (codes " source " ++ (source ++ codes " is missing"))))
    >> check_sources columns feature_name sources

-- `for feature in &self.features`.
unfoldable pub check_features : List ColumnDescriptor → List FeatureDescriptor → Result Text Unit
check_features columns [] = ok tt
check_features columns (f ∷ features) = do
  ensure (is_column columns f.target_column)
      (codes "feature " ++ (f.name ++ (codes " targets missing column " ++ f.target_column)))
  check_sources columns f.name f.source_columns
  check_features columns features

unfoldable pub validate_table : TableDescriptor → Result Text Unit
validate_table table = do
  ensure (not (is_empty (trim table.name))) (codes "table name cannot be empty")
  ensure (any (λ c. c.primary) table.columns)
      (codes "table " ++ (table.name ++ codes " has no primary id column"))
  ensure (any (λ c. c.tenant) table.columns)
      (codes "table " ++ (table.name ++ codes " has no tenant column"))
  check_vector_columns table.columns
  check_features table.columns table.features

unfoldable pub requires_module : TableDescriptor → Text → Bool
requires_module table module_id =
    any (λ requirement. text_eq requirement.module_id module_id) table.module_requirements
