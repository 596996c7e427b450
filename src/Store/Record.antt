-- ===== src/Store/Record.antt =====
-- crates/tracedb-store/src/lib.rs: stored records, the store, its deltas and its keys. `Arc` shares
-- a version between readers, and `Arc::make_mut` copies it before a write: versions are values.
use tracedb.Base.{
  ℕ, Text, Bool, ◌&&◌, Option, some, List, [], ◌∷◌, ◌++◌, is_none, unwrap_or, modify_last,
}
use tracedb.Base.Map
use tracedb.Base.Map.{Map}
use tracedb.Core.Types.{Epoch, VersionId, DerivedFeatureState}

pub record RecordHeader : Type 0 where
  pub record_id : Text
  pub table_id : Text
  pub tenant_id : Text
  pub schema_version : ℕ
  pub begin_epoch : Epoch
  pub end_epoch : Option Epoch
  pub version_id : VersionId
  pub tombstone : Option Text

pub record StoredRecord (V : Type 0) : Type 0 where
  pub header : RecordHeader
  pub fields : Map V
  pub features : Map DerivedFeatureState

pub record RecordStore (V : Type 0) : Type 0 where
  pub versions : Map (List (StoredRecord V))

pub record RecordStoreDelta (V : Type 0) : Type 0 where
  pub versions_by_key : Map (List (StoredRecord V))

-- The NUL between the parts is code point 0.
unfoldable pub record_key_prefix : Text → Text → Text
record_key_prefix table tenant = table ++ (0 ∷ (tenant ++ (0 ∷ [])))

unfoldable pub record_key : Text → Text → Text → Text
unfolding record_key_prefix
record_key table tenant id = record_key_prefix table tenant ++ id

module _ {V : Type 0} where
  abbrev pub default_store : RecordStore V
  default_store = record { versions = Map.empty }

  abbrev pub default_delta : RecordStoreDelta V
  default_delta = record { versions_by_key = Map.empty }

  -- `record.header.end_epoch.is_none()`.
  abbrev pub is_open : StoredRecord V → Bool
  is_open r = is_none r.header.end_epoch

  -- ... `&& record.header.tombstone.is_none()`.
  abbrev pub is_live : StoredRecord V → Bool
  is_live r = is_none r.header.end_epoch && is_none r.header.tombstone

  abbrev pub close : Epoch → StoredRecord V → StoredRecord V
  close epoch r = record r { header = record r.header { end_epoch = some epoch } }

  -- The open version ends at `epoch`.
  unfoldable pub close_current : Epoch → List (StoredRecord V) → List (StoredRecord V)
  close_current epoch versions = modify_last is_open (close epoch) versions

  -- The versions at a key; `entry(key).or_default()` starts from none.
  unfoldable pub versions_at : Text → RecordStore V → List (StoredRecord V)
  versions_at key s = unwrap_or (Map.get key s.versions) []

  unfoldable pub put_versions : Text → List (StoredRecord V) → RecordStore V → RecordStore V
  put_versions key versions s = record { versions = Map.insert key versions s.versions }

  unfoldable pub replace_versions :
      Text → List (StoredRecord V) → RecordStoreDelta V → RecordStoreDelta V
  replace_versions key versions d = record {
    versions_by_key = Map.insert key versions d.versions_by_key;
  }

  unfoldable pub merge : RecordStoreDelta V → RecordStoreDelta V → RecordStoreDelta V
  merge d other = record { versions_by_key = Map.extend d.versions_by_key other.versions_by_key }

  -- The loop of `insert` over the entries of the delta.
  unfoldable pub apply_delta : RecordStoreDelta V → RecordStore V → RecordStore V
  apply_delta d s = record { versions = Map.extend s.versions d.versions_by_key }
