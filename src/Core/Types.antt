-- ===== src/Core/Types.antt =====
-- crates/tracedb-core/src/lib.rs: schemas, record inputs and feature states. An epoch and a version
-- are their number (`Epoch(u64)`, `VersionId(u64)`), and `V` is the type of JSON values.
use tracedb.Base.{ℕ, Text, List, Option, some, ◌≡◌}
use tracedb.Base.Map.{Map}

abbrev pub Epoch : Type 0
Epoch = ℕ

abbrev pub VersionId : Type 0
VersionId = ℕ

pub data FeatureStatus : Type 0 where
  ready dirty pending failed missing : FeatureStatus

pub record DerivedFeatureState : Type 0 where
  pub source_columns : List Text
  pub source_hash : ℕ
  pub model_id : Option Text
  pub model_version : Option Text
  pub created_epoch : Epoch
  pub valid_for_epoch : Epoch
  pub status : FeatureStatus

pub record VectorColumnSchema : Type 0 where
  pub name : Text
  pub dimensions : ℕ
  pub source_columns : List Text

pub record TableSchema : Type 0 where
  pub name : Text
  pub primary_id_column : Text
  pub tenant_id_column : Text
  pub scalar_columns : List Text
  pub text_indexed_columns : List Text
  pub vector_columns : List VectorColumnSchema

pub record RecordInput (V : Type 0) : Type 0 where
  pub table : Text
  pub id : Text
  pub tenant_id : Text
  pub fields : Map V

pub record RecordDeletion : Type 0 where
  pub table : Text
  pub id : Text
  pub tenant_id : Text
  pub tombstone : Text

pub record FeatureInvalidation : Type 0 where
  pub table : Text
  pub tenant_id : Text
  pub record_id : Text
  pub feature : Text
  pub status : FeatureStatus

-- What the code takes from `serde_json::Value`, from `sha2` and from the float casts. A double and
-- a float are their bit patterns. The one law is that a string value reads back.
pub record External (V : Type 0) : Type 0 where
  pub string : Text → V
  pub as_str : V → Option Text
  pub as_array : V → Option (List V)
  pub as_f64 : V → Option ℕ
  pub f64_as_f32 : ℕ → ℕ
  pub to_text : V → Text
  pub sha256 : List ℕ → List ℕ
  pub as_str-string : (t : Text) → as_str (string t) ≡ some t
