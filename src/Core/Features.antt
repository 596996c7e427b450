-- ===== src/Core/Features.antt =====
-- crates/tracedb-core/src/lib.rs: the states of derived features, `source_hash` and
-- `value_as_f32_vec`.
use tracedb.Base.{ℕ, ◌+◌, ◌*◌, Text, codes, as_bytes, List, [], ◌∷◌, ◌++◌, Option, none, some, take}
use tracedb.Base.Map
use tracedb.Base.Map.{Map}
use tracedb.Core.Types.{DerivedFeatureState, FeatureStatus, Epoch, External}

unfoldable pub ready : List Text → ℕ → Epoch → DerivedFeatureState
ready source_columns source_hash epoch = record {
  source_columns = source_columns;
  source_hash = source_hash;
  model_id = none;
  model_version = none;
  created_epoch = epoch;
  valid_for_epoch = epoch;
  status = FeatureStatus.ready;
}

unfoldable pub missing : List Text → Epoch → DerivedFeatureState
missing source_columns epoch = record {
  source_columns = source_columns;
  source_hash = 0;
  model_id = none;
  model_version = none;
  created_epoch = epoch;
  valid_for_epoch = epoch;
  status = FeatureStatus.missing;
}

unfoldable pub dirty_from : DerivedFeatureState → ℕ → Epoch → DerivedFeatureState
dirty_from previous source_hash epoch = record previous {
  source_hash = source_hash;
  valid_for_epoch = epoch;
  status = FeatureStatus.dirty;
}

-- `u64::from_le_bytes`.
unfoldable pub from_le_bytes : List ℕ → ℕ
from_le_bytes [] = 0
from_le_bytes (b ∷ bs) = b + 256 * from_le_bytes bs

module _ {V : Type 0} ⦃x : External V⦄ where
  value_bytes : Option V → List ℕ
  value_bytes none = []
  value_bytes (some value) = as_bytes (x.to_text value)

  hashed_bytes : Map V → List Text → List ℕ
  unfolding value_bytes
  hashed_bytes fields [] = []
  hashed_bytes fields (column ∷ columns) =
      as_bytes column
      ++ (codes "=" ++ (value_bytes (Map.get column fields) ++ (0 ∷ hashed_bytes fields columns)))

  unfoldable pub source_hash : Map V → List Text → ℕ
  unfolding hashed_bytes from_le_bytes
  source_hash fields source_columns =
      from_le_bytes (take 8 (x.sha256 (hashed_bytes fields source_columns)))

  f32_items : List V → Option (List ℕ)
  f32_items [] = some []
  f32_items (item ∷ items) = elim (x.as_f64 item) [
    | none ↦ none
    | some d ↦ elim (f32_items items) [ none ↦ none | some out ↦ some (x.f64_as_f32 d ∷ out) ]
  ]

  unfoldable pub value_as_f32_vec : V → Option (List ℕ)
  unfolding f32_items
  value_as_f32_vec value = elim (x.as_array value) [ none ↦ none | some array ↦ f32_items array ]
