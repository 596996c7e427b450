-- ===== src/Store/Sample.antt =====
-- A small table with its values: the sample that the tests of the store and of the engine share.
use tracedb.Base.{ℕ, Text, codes, Option, none, some, List, [], ◌∷◌, map, refl}
use tracedb.Core.Types.{
  TableSchema, RecordInput, RecordDeletion, FeatureInvalidation, FeatureStatus, External,
}

pub data Value : Type 0 where
  text : Text → Value
  number : ℕ → Value
  numbers : List ℕ → Value

abbrev pub value_as_str : Value → Option Text
value_as_str (text t) = some t
value_as_str (number n) = none
value_as_str (numbers ns) = none

abbrev pub value_as_array : Value → Option (List Value)
value_as_array (text t) = none
value_as_array (number n) = none
value_as_array (numbers ns) = some (map number ns)

abbrev pub value_as_f64 : Value → Option ℕ
value_as_f64 (text t) = none
value_as_f64 (number n) = some n
value_as_f64 (numbers ns) = none

abbrev pub value_to_text : Value → Text
value_to_text (text t) = t
value_to_text (number n) = n ∷ []
value_to_text (numbers ns) = ns

instance abbrev pub values : External Value
values = record {
  string = text;
  as_str = value_as_str;
  as_array = value_as_array;
  as_f64 = value_as_f64;
  f64_as_f32 = λ d. d;
  to_text = value_to_text;
  sha256 = λ bytes. bytes;
  as_str-string = λ t. refl;
}

abbrev pub docs : TableSchema
docs = record {
  name = codes "docs";
  primary_id_column = codes "id";
  tenant_id_column = codes "tenant";
  scalar_columns = codes "body" ∷ [];
  text_indexed_columns = codes "body" ∷ [];
  vector_columns =
      record { name = codes "embedding"; dimensions = 2; source_columns = codes "body" ∷ [] } ∷ [];
}

abbrev pub note : RecordInput Value
note = record {
  table = codes "docs";
  id = codes "a";
  tenant_id = codes "acme";
  fields = (codes "body", text (codes "hi")) ∷ (codes "embedding", numbers (1 ∷ 2 ∷ [])) ∷ [];
}

abbrev pub removal : RecordDeletion
removal = record {
  table = codes "docs";
  id = codes "a";
  tenant_id = codes "acme";
  tombstone = codes "";
}

abbrev pub stale : FeatureInvalidation
stale = record {
  table = codes "docs";
  tenant_id = codes "acme";
  record_id = codes "a";
  feature = codes "embedding";
  status = FeatureStatus.dirty;
}
