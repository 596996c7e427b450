-- ===== src/Store/Planned.antt =====
-- crates/tracedb-store/src/lib.rs: what a plan on its own puts at the key that it writes, and the
-- order of the features that are stored.
use tracedb.Base.{
  All-find_last, All-append_one, All-modify_last, Text, text_eq, text_eq_refl, Option, Bool-cases,
  inl, inr, none, some, List, [], ◌∷◌, ◌++◌, ◌≡◌, refl, All, is_empty, not, find_last,
  find_last-append_one, keep, Gives, Gives-bind, Gives-ok, ensure, ok_or, ok_or-eq-ok,
}
use tracedb.Base.Map
use tracedb.Base.Map.{Map}
use tracedb.Core.Types.{
  Epoch, TableSchema, RecordInput, RecordDeletion, FeatureInvalidation, External,
}
use tracedb.Store.Record.{
  StoredRecord, RecordStore, RecordStoreDelta, default_delta, record_key, is_live, versions_at,
  put_versions, replace_versions, apply_delta, close_current,
}
use tracedb.Store.Validate.{
  validate_record_identity, validate_vector_dimensions, validate_deletion_identity,
}
use tracedb.Store.Build.{
  build_replacement_record, replacement_fields, merge_fields, build_features, new_version,
  previous_features,
}
use tracedb.Store.Apply.{close_live}
use tracedb.Store.Plan.{
  versions_for_planning, plan_mutation_into, plan_replacement_into, plan_replacement_record,
  plan_delete_into, plan_feature_invalidation_into,
}
use tracedb.Store.Versions.{versions_at-put_versions}
use tracedb.Store.Replay.{is_outdated_by}
use tracedb.Store.Dirty.{IsDirtyAt, build_vectors-outdated, build_vectors-IsSorted}

module _ {V : Type 0} where
  -- The features of every version that is stored are in the order of their names.
  pub record HasSortedFeatures (s : RecordStore V) : Type 0 where
    pub at_key : (k : Text) → All (λ r. Map.IsSorted r.features) (versions_at k s)

  -- The plan writes these versions at this key.
  abbrev pub Puts : RecordStore V → RecordStoreDelta V → Text → List (StoredRecord V) → Type 0
  Puts s d key versions =
      Map.IsSorted d.versions_by_key × (apply_delta d s ≡ put_versions key versions s)

  replace_versions-Puts :
      (s : RecordStore V) (key : Text) (versions : List (StoredRecord V))
      → Puts s (replace_versions key versions default_delta) key versions
  unfolding apply_delta replace_versions Map.extend Map.insert put_versions
  replace_versions-Puts s key versions = ((tt, tt), refl)

  planning_alone :
      (s : RecordStore V) (k : Text) → versions_for_planning s default_delta k ≡ versions_at k s
  unfolding versions_for_planning versions_at Map.get
  planning_alone s k = refl

  put_versions-HasSortedFeatures :
      (s : RecordStore V) (key : Text) (versions : List (StoredRecord V))
      → HasSortedFeatures s
      → All (λ r. Map.IsSorted r.features) versions
      → HasSortedFeatures (put_versions key versions s)
  put_versions-HasSortedFeatures s key versions h sorted = record {
    at_key = λ j. elim (Bool-cases (text_eq j key)) [
      | inl same ↦ rw (versions_at-put_versions, same) sorted
      | inr other ↦ rw (versions_at-put_versions, other) (h.at_key j)
    ];
  }

  close_current-IsSorted :
      (e : Epoch) (versions : List (StoredRecord V))
      → All (λ r. Map.IsSorted r.features) versions
      → All (λ r. Map.IsSorted r.features) (close_current e versions)
  unfolding close_current
  close_current-IsSorted e versions h = All-modify_last _ _ _ versions (λ _ q. q) h

  -- A plan leaves the features sorted.
  abbrev pub Sorts : RecordStore V → RecordStoreDelta V → Type 0
  Sorts s d = Map.IsSorted d.versions_by_key × HasSortedFeatures (apply_delta d s)

  replace_versions-Sorts :
      (s : RecordStore V) (key : Text) (versions : List (StoredRecord V))
      → HasSortedFeatures s
      → All (λ r. Map.IsSorted r.features) versions
      → Sorts s (replace_versions key versions default_delta)
  replace_versions-Sorts s key versions h sorted =
      let (delta, puts) = replace_versions-Puts s key versions in
      (delta, rw puts (put_versions-HasSortedFeatures s key versions h sorted))

  pub plan_delete-Sorts :
      (s : RecordStore V) (schema : TableSchema) (deletion : RecordDeletion) (e : Epoch)
      → HasSortedFeatures s
      → Gives (Sorts s) (plan_delete_into s default_delta schema deletion e)
  unfolding plan_delete_into close_live
  plan_delete-Sorts s schema deletion e h =
      let key = record_key deletion.table deletion.tenant_id deletion.id in
      rw planning_alone (
        Gives-bind (Sorts s) (validate_deletion_identity schema deletion) _ λ _ _.
          Gives-bind (Sorts s) (ensure (not (is_empty (versions_at key s))) _) _ λ _ _.
            Gives-bind (Sorts s) (ok_or (find_last is_live (versions_at key s)) _) _
              λ previous found. replace_versions-Sorts s key _ h (
                All-append_one _ _ _
                  (All-modify_last _ _ _ (versions_at key s) (λ _ q. q) (h.at_key key))
                  (All-find_last _ _ (versions_at key s) previous (h.at_key key)
                    (ok_or-eq-ok _ _ found))))

  pub plan_feature_invalidation-Sorts :
      (s : RecordStore V) (i : FeatureInvalidation) (e : Epoch)
      → HasSortedFeatures s
      → Gives (Sorts s) (plan_feature_invalidation_into s default_delta i e)
  unfolding plan_feature_invalidation_into
  plan_feature_invalidation-Sorts s i e h =
      let key = record_key i.table i.tenant_id i.record_id in
      rw planning_alone (
        Gives-bind (Sorts s) (ensure (not (is_empty (versions_at key s))) _) _ λ _ _.
          Gives-bind (Sorts s) (ok_or (find_last is_live (versions_at key s)) _) _ λ current _.
            Gives-bind (Sorts s) (ok_or (Map.get i.feature current.features) _) _ λ state _.
              replace_versions-Sorts s key _ h (
                All-modify_last _ _ _ (versions_at key s)
                  (λ r sorted. Map.insert-IsSorted i.feature _ r.features sorted) (h.at_key key)))

module _ {V : Type 0} ⦃x : External V⦄ where
  -- The plan puts a live version at the key of the input whose outdated features are dirty.
  abbrev pub Marks :
      RecordStore V → TableSchema → RecordInput V → Epoch → RecordStoreDelta V → Type 0
  Marks s schema m e d =
      Sorts s d
      × ((r : StoredRecord V) × (find_last is_live
              (versions_at (record_key m.table m.tenant_id m.id) (apply_delta d s))
            ≡ some r)
          × Map.IsSorted r.features
          × All (λ vector. IsDirtyAt e vector.name r.features)
              (keep (is_outdated_by m.fields) schema.vector_columns))

  new_version-Marks :
      (s : RecordStore V) (schema : TableSchema) (m : RecordInput V) (e : Epoch) (merged : Map V)
      (previous : Option (StoredRecord V))
      → HasSortedFeatures s
      → Map.IsSorted (previous_features previous)
      → let key = record_key m.table m.tenant_id m.id in
        Marks s schema m e (
          replace_versions key
            (close_current e (versions_at key s)
              ++ new_version m e merged (build_features schema m merged previous e) ∷ [])
            default_delta)
  unfolding build_features
  new_version-Marks s schema m e merged previous h sorted =
      let key = record_key m.table m.tenant_id m.id in
      let features = build_features schema m merged previous e in
      let versions = close_current e (versions_at key s) ++ new_version m e merged features ∷ [] in
      let built =
        build_vectors-IsSorted schema.vector_columns m.fields merged (previous_features previous) e
          sorted in
      (
        replace_versions-Sorts s key versions h (
            All-append_one _ _ _ (close_current-IsSorted e (versions_at key s) (h.at_key key))
              built),
        (
          new_version m e merged features,
          rw ((replace_versions-Puts s key versions).1, versions_at-put_versions, text_eq_refl)
              (find_last-append_one is_live (close_current e (versions_at key s)) _),
          built,
          build_vectors-outdated schema.vector_columns m.fields merged (previous_features previous)
              e,
        ),
      )

  previous_features-IsSorted :
      (s : RecordStore V) (key : Text) (o : Option (StoredRecord V))
      → HasSortedFeatures s
      → find_last is_live (versions_at key s) ≡ o
      → Map.IsSorted (previous_features o)
  previous_features-IsSorted s key none h found = tt
  previous_features-IsSorted s key (some r) h found =
      All-find_last _ _ (versions_at key s) r (h.at_key key) found

  pub plan_mutation-Marks :
      (s : RecordStore V) (schema : TableSchema) (m : RecordInput V) (e : Epoch)
      → HasSortedFeatures s
      → Gives (Marks s schema m e) (plan_mutation_into s default_delta schema m e)
  unfolding plan_mutation_into
  plan_mutation-Marks s schema m e h =
      let key = record_key m.table m.tenant_id m.id in
      let previous = find_last is_live (versions_at key s) in
      rw planning_alone (
        Gives-bind _ (validate_record_identity schema m none) _ λ _ _.
          Gives-bind _ (validate_vector_dimensions schema m) _ λ _ _.
            Gives-bind _ (ensure (not (is_empty m.tenant_id)) _) _ λ _ _.
              Gives-bind _ (validate_record_identity schema m (some _)) _ λ _ _.
                new_version-Marks s schema m e (merge_fields schema m previous) previous h
                  (previous_features-IsSorted s key previous h refl))

  build_replacement_record-built :
      (schema : TableSchema) (m : RecordInput V) (e : Epoch)
      → let fields = replacement_fields schema m in
        Gives
          (λ built. built ≡ (
            record_key m.table m.tenant_id m.id,
            new_version m e fields (build_features schema m fields none e),
          ))
          (build_replacement_record schema m e)
  unfolding build_replacement_record
  build_replacement_record-built schema m e =
      Gives-bind _ (validate_record_identity schema m none) _ λ _ _.
        Gives-bind _ (validate_vector_dimensions schema m) _ λ _ _.
          Gives-bind _ (ensure (not (is_empty m.tenant_id)) _) _
            λ _ _. Gives-bind _ (validate_record_identity schema m (some _)) _ λ _ _. refl

  pub plan_replacement-Marks :
      (s : RecordStore V) (schema : TableSchema) (m : RecordInput V) (e : Epoch)
      → HasSortedFeatures s
      → Gives (Marks s schema m e) (plan_replacement_into s default_delta schema m e)
  unfolding plan_replacement_into plan_replacement_record
  plan_replacement-Marks s schema m e h =
      Gives-bind _ (build_replacement_record schema m e) _ λ built is_built.
        let made =
          Gives-ok _ (build_replacement_record schema m e) built
            (build_replacement_record-built schema m e) is_built in
        rw (made, planning_alone)
          (new_version-Marks s schema m e (replacement_fields schema m) none h tt)
