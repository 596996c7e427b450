-- ===== src/Store/Read.antt =====
-- crates/tracedb-store/src/lib.rs: the reads of `RecordStore` at an epoch, and `ReadSnapshot`.
use tracedb.Base.{
  ℕ, Text, text_eq, text_lt, starts_with, Bool, true, false, ◌&&◌, Option, none, some, List, [],
  ◌∷◌, ◌++◌, leb, ltb, if◌then◌else◌, is_some, is_none, find, find_last, keep, take,
}
use tracedb.Base.Map
use tracedb.Base.Map.{Map}
use tracedb.Core.Types.{Epoch, DerivedFeatureState}
use tracedb.Store.Record.{
  StoredRecord, RecordStore, default_store, record_key, record_key_prefix, versions_at,
  put_versions,
}

module _ {V : Type 0} where
  -- The version's interval `[begin, end)` holds the epoch.
  abbrev pub covers : Epoch → StoredRecord V → Bool
  covers epoch r =
      leb r.header.begin_epoch epoch
      && elim r.header.end_epoch [ none ↦ true | some end ↦ ltb epoch end ]

  abbrev pub is_visible : Epoch → StoredRecord V → Bool
  is_visible epoch r = covers epoch r && is_none r.header.tombstone

  unfoldable pub visible_record_at : List (StoredRecord V) → Epoch → Option (StoredRecord V)
  visible_record_at versions epoch = find_last (is_visible epoch) versions

  -- `versions.get(key).and_then(f)`, with no version where there is no entry.
  unfoldable pub get_record : RecordStore V → Text → Text → Text → Epoch → Option (StoredRecord V)
  unfolding visible_record_at
  get_record s table tenant_id record_id epoch =
      elim (Map.get (record_key table tenant_id record_id) s.versions) [
        | none ↦ none
        | some versions ↦ visible_record_at versions epoch
      ]

  unfoldable pub is_tombstoned_at : RecordStore V → Text → Text → Text → Epoch → Bool
  is_tombstoned_at s table tenant_id record_id epoch =
      elim (Map.get (record_key table tenant_id record_id) s.versions) [
        | none ↦ false
        | some versions ↦ elim (find_last (covers epoch) versions) [
          | none ↦ false
          | some r ↦ is_some r.header.tombstone
        ]
      ]

  -- `range(prefix..)` skips the keys below the prefix.
  unfoldable pub range_from : Text → Map (List (StoredRecord V)) → Map (List (StoredRecord V))
  range_from prefix [] = []
  range_from prefix ((key, versions) ∷ m) =
      let rest = range_from prefix m in if text_lt key prefix then rest else (key, versions) ∷ m

  -- `take_while(starts_with(prefix))`, then `filter_map(visible_record_at)`.
  unfoldable pub collect_visible :
      Text → Epoch → Map (List (StoredRecord V)) → List (StoredRecord V)
  collect_visible prefix epoch [] = []
  collect_visible prefix epoch ((key, versions) ∷ m) =
      let rest = collect_visible prefix epoch m in
      if starts_with key prefix
      then elim (visible_record_at versions epoch) [ none ↦ rest | some r ↦ r ∷ rest ]
      else []

  unfoldable pub visible_records_at : RecordStore V → Text → Text → Epoch → List (StoredRecord V)
  unfolding range_from collect_visible
  visible_records_at s table tenant_id epoch =
      let prefix = record_key_prefix table tenant_id in
      collect_visible prefix epoch (range_from prefix s.versions)

  -- `sort_by` on the record id: a stable insertion sort.
  unfoldable pub insert_by_id : StoredRecord V → List (StoredRecord V) → List (StoredRecord V)
  insert_by_id r [] = r ∷ []
  insert_by_id r (q ∷ rs) =
      let rest = insert_by_id r rs in
      if text_lt q.header.record_id r.header.record_id then q ∷ rest else r ∷ q ∷ rs

  unfoldable pub sort_by_id : List (StoredRecord V) → List (StoredRecord V)
  unfolding insert_by_id
  sort_by_id [] = []
  sort_by_id (r ∷ rs) = insert_by_id r (sort_by_id rs)

  unfoldable pub scan_records : RecordStore V → Text → Text → ℕ → Epoch → List (StoredRecord V)
  unfolding sort_by_id visible_records_at
  scan_records s table tenant_id limit epoch =
      take limit (sort_by_id (visible_records_at s table tenant_id epoch))

  -- The records that the predicate finds, one at most for each key, in the order of the keys.
  unfoldable pub collect_last :
      (StoredRecord V → Bool) → Map (List (StoredRecord V)) → List (StoredRecord V)
  collect_last p [] = []
  collect_last p ((_, versions) ∷ m) =
      let rest = collect_last p m in elim (find_last p versions) [ none ↦ rest | some r ↦ r ∷ rest ]

  unfoldable pub checkpoint_records : RecordStore V → Epoch → List (StoredRecord V)
  unfolding collect_last
  checkpoint_records s epoch = collect_last (covers epoch) s.versions

pub record ReadSnapshot (V : Type 0) : Type 0 where
  pub epoch : Epoch
  pub records : List (StoredRecord V)

module _ {V : Type 0} where
  unfoldable pub snapshot : RecordStore V → Epoch → ReadSnapshot V
  unfolding collect_last
  snapshot s epoch = record { epoch = epoch; records = collect_last (is_visible epoch) s.versions }

  abbrev pub belongs_to : Text → Text → StoredRecord V → Bool
  belongs_to table tenant_id r =
      text_eq r.header.table_id table && text_eq r.header.tenant_id tenant_id

  unfoldable pub visible_records : ReadSnapshot V → Text → Text → List (StoredRecord V)
  visible_records snap table tenant_id = keep (belongs_to table tenant_id) snap.records

  unfoldable pub all_visible_records : ReadSnapshot V → Text → List (StoredRecord V)
  all_visible_records snap table = keep (λ r. text_eq r.header.table_id table) snap.records

  unfoldable pub get_snapshot_record : ReadSnapshot V → Text → Text → Text → Option (StoredRecord V)
  get_snapshot_record snap table tenant_id record_id =
      find (λ r. belongs_to table tenant_id r && text_eq r.header.record_id record_id) snap.records

  -- The first key, in order, whose last version that fits has the feature.
  unfoldable pub find_feature :
      (StoredRecord V → Bool) → Text → Map (List (StoredRecord V)) → Option DerivedFeatureState
  find_feature p feature [] = none
  find_feature p feature ((_, versions) ∷ m) =
      let rest = find_feature p feature m in
      elim (find_last p versions) [
        | none ↦ rest
        | some r ↦ elim (Map.get feature r.features) [ none ↦ rest | some state ↦ some state ]
      ]

  unfoldable pub feature_state :
      RecordStore V → Text → Text → Text → Text → Epoch → Option DerivedFeatureState
  unfolding find_feature
  feature_state s table tenant_id record_id feature epoch =
      find_feature
        (λ r.
          belongs_to table tenant_id r
          && text_eq r.header.record_id record_id
          && is_none r.header.tombstone
          && covers epoch r)
        feature s.versions

  unfoldable pub push_record : RecordStore V → StoredRecord V → RecordStore V
  push_record s r =
      let key = record_key r.header.table_id r.header.tenant_id r.header.record_id in
      put_versions key (versions_at key s ++ r ∷ []) s

  unfoldable pub push_records : RecordStore V → List (StoredRecord V) → RecordStore V
  unfolding push_record
  push_records s [] = s
  push_records s (r ∷ rs) = push_records (push_record s r) rs

  unfoldable pub from_checkpoint_records : List (StoredRecord V) → RecordStore V
  unfolding push_records
  from_checkpoint_records records = push_records default_store records
