-- ===== src/Store/PlanApply.antt =====
-- The planned writes of crates/tracedb-store/src/lib.rs beside the writes.
use tracedb.Base.{
  Text, Option, none, some, List, [], ◌∷◌, ◌++◌, ◌≡◌, refl, arith, find_last, is_empty, unwrap_or,
  Result, ok, err, ok_or, ensure,
}
use tracedb.Base.{◌>>=◌, ◌>>◌, not, modify_last}
use tracedb.Base.Exec.{Exec, continue}
use tracedb.Base.Map
use tracedb.Core.Error.{TraceDbError, not_found}
use tracedb.Core.Types.{
  Epoch, TableSchema, RecordInput, RecordDeletion, FeatureInvalidation, External,
}
use tracedb.Store.Record.{
  StoredRecord, RecordStore, RecordStoreDelta, record_key, is_live, versions_at, put_versions,
  replace_versions, apply_delta,
}
use tracedb.Store.Validate.{
  validate_record_identity, validate_vector_dimensions, validate_deletion_identity,
}
use tracedb.Store.Build.{build_replacement_record}
use tracedb.Store.Apply.{
  install_replacement, apply_mutation, apply_replacement, apply_delete, apply_feature_invalidation,
  colon_joined, feature_path, close_live, tombstone_version, set_feature, invalidated,
}
use tracedb.Store.Plan.{
  versions_for_planning, plan_mutation_into, plan_replacement_into, plan_replacement_record,
  plan_delete_into, plan_feature_invalidation_into,
}
use tracedb.Store.Versions.{versions_at-put_versions, put_versions_twice}

module _ {V : Type 0} where
  -- Two stores hold the same versions at every key.
  abbrev pub SameVersions : RecordStore V → RecordStore V → Type 0
  SameVersions s s' = (j : Text) → versions_at j s ≡ versions_at j s'

  -- What a plan that gives `planned` has to do with the write that gave `result` and left `after`: an
  -- error is the same error, and a delta applied to the store is what the write left.
  abbrev pub Agrees :
      {A : Type 0}
      → RecordStore V
      → Result TraceDbError (RecordStoreDelta V)
      → Result TraceDbError A
      → RecordStore V
      → Type 0
  Agrees s (ok d) (ok r) after =
      Map.IsSorted d.versions_by_key × SameVersions (apply_delta d s) after
  Agrees s (err e) (err e') after = e ≡ e'
  Agrees s _ _ after = ⊥

  pub planning_reads :
      (s : RecordStore V) (d : RecordStoreDelta V) (k : Text)
      → Map.IsSorted d.versions_by_key
      → versions_for_planning s d k ≡ versions_at k (apply_delta d s)
  unfolding versions_for_planning versions_at apply_delta
  planning_reads s d k h = ground (arith, Map.get-extend k s.versions d.versions_by_key h)

  replaced_same :
      (s : RecordStore V) (d : RecordStoreDelta V) (k : Text) (vs : List (StoredRecord V))
      → Map.IsSorted d.versions_by_key
      → Map.IsSorted (replace_versions k vs d).versions_by_key
        × SameVersions
            (apply_delta (replace_versions k vs d) s)
            (put_versions k vs (apply_delta d s))
  unfolding replace_versions
  replaced_same s d k vs h = (Map.insert-IsSorted k vs d.versions_by_key h, λ j. same j)
    where
      same :
          (j : Text)
          → versions_at j (apply_delta (replace_versions k vs d) s)
            ≡ versions_at j (put_versions k vs (apply_delta d s))
      same j = rw versions_at-put_versions (
          rw
            (
              ← planning_reads s (replace_versions k vs d) j
                  (Map.insert-IsSorted k vs d.versions_by_key h),
              ← planning_reads s d j h,
            )
            (unfold versions_for_planning in
              ground (arith, Map.get-insert j k vs d.versions_by_key)))

  -- A check that both make first.
  Agrees-lift :
      {A B : Type 0} (s : RecordStore V) (r : Result TraceDbError A)
      (f : A → Result TraceDbError (RecordStoreDelta V))
      (g : A → Exec (RecordStore V) TraceDbError B) (s' : RecordStore V)
      → ((a : A) → Agrees s (f a) (g a s').0 (g a s').1)
      → Agrees s (r >>= f) (continue r g s').0 (continue r g s').1
  Agrees-lift s (ok a) f g s' h = h a
  Agrees-lift s (err e) f g s' h = refl

  -- The delete and the invalidation want an entry where the plan wants versions.
  Agrees-entry :
      {B : Type 0} (s : RecordStore V) (e : TraceDbError) (s' : RecordStore V)
      (f : List (StoredRecord V) → Result TraceDbError (RecordStoreDelta V))
      (g : List (StoredRecord V) → Exec (RecordStore V) TraceDbError B)
      → g [] s' ≡ (err e, s')
      → (o : Option (List (StoredRecord V)))
      → ((vs : List (StoredRecord V))
          → vs ≡ unwrap_or o []
          → Agrees s (f vs) (g vs s').0 (g vs s').1)
      → Agrees s
          (ensure (not (is_empty (unwrap_or o []))) e >> f (unwrap_or o []))
          (continue (ok_or o e) g s').0
          (continue (ok_or o e) g s').1
  Agrees-entry s e s' f g ge none h = refl
  Agrees-entry s e s' f g ge (some []) h = rw ge refl
  Agrees-entry s e s' f g ge (some (v ∷ vs)) h = h (v ∷ vs) refl

  -- Planning a deletion into a delta with sorted keys fails as the deletion fails on the store
  -- with that delta applied, and otherwise gives a delta with sorted keys that leaves, applied, the
  -- versions that the deletion leaves.
  pub plan_delete-Agrees :
      (s : RecordStore V) (d : RecordStoreDelta V) (schema : TableSchema)
      (deletion : RecordDeletion) (e : Epoch)
      → Map.IsSorted d.versions_by_key
      → Agrees s
          (plan_delete_into s d schema deletion e)
          (apply_delete schema deletion e (apply_delta d s)).0
          (apply_delete schema deletion e (apply_delta d s)).1
  unfolding plan_delete_into apply_delete versions_at
  plan_delete-Agrees s d schema deletion e h = rw (planning_reads s d _ h) (
      Agrees-lift s (validate_deletion_identity schema deletion) _ _ (apply_delta d s) λ _.
        Agrees-entry s _ (apply_delta d s)
          (λ vs. do
            previous ←
                ok_or (find_last is_live vs)
                  (not_found (colon_joined deletion.table deletion.tenant_id deletion.id))
            ok (
                replace_versions (record_key deletion.table deletion.tenant_id deletion.id)
                  (close_live e vs ++ tombstone_version deletion e previous ∷ []) d))
          _ refl
          (Map.get (record_key deletion.table deletion.tenant_id deletion.id)
            (apply_delta d s).versions)
          λ vs found.
            Agrees-lift s (ok_or (find_last is_live vs) _) _ _ (apply_delta d s)
              λ previous. replaced_same s d _ _ h)

  -- Planning a feature invalidation into a delta with sorted keys fails as the invalidation fails on the store
  -- with that delta applied, and otherwise gives a delta with sorted keys that leaves, applied, the
  -- versions that the invalidation leaves.
  pub plan_feature_invalidation-Agrees :
      (s : RecordStore V) (d : RecordStoreDelta V) (i : FeatureInvalidation) (e : Epoch)
      → Map.IsSorted d.versions_by_key
      → Agrees s
          (plan_feature_invalidation_into s d i e)
          (apply_feature_invalidation i e (apply_delta d s)).0
          (apply_feature_invalidation i e (apply_delta d s)).1
  unfolding plan_feature_invalidation_into apply_feature_invalidation versions_at
  plan_feature_invalidation-Agrees s d i e h = rw (planning_reads s d _ h) (
      Agrees-entry s _ (apply_delta d s)
        (λ vs. do
          current ←
              ok_or (find_last is_live vs)
                (not_found (colon_joined i.table i.tenant_id i.record_id))
          state ← ok_or (Map.get i.feature current.features) (not_found (feature_path i))
          ok (
              replace_versions (record_key i.table i.tenant_id i.record_id)
                (modify_last is_live (set_feature i.feature (invalidated i e state)) vs) d))
        _ refl (Map.get (record_key i.table i.tenant_id i.record_id) (apply_delta d s).versions)
        λ vs found. Agrees-lift s (ok_or (find_last is_live vs) _) _ _ (apply_delta d s) λ current.
          Agrees-lift s (ok_or (Map.get i.feature current.features) _) _ _ (apply_delta d s)
            λ state. replaced_same s d _ _ h)

module _ {V : Type 0} ⦃x : External V⦄ where
  -- Planning a mutation into a delta with sorted keys fails as the mutation fails on the store
  -- with that delta applied, and otherwise gives a delta with sorted keys that leaves, applied, the
  -- versions that the mutation leaves.
  pub plan_mutation-Agrees :
      (s : RecordStore V) (d : RecordStoreDelta V) (schema : TableSchema) (m : RecordInput V)
      (e : Epoch)
      → Map.IsSorted d.versions_by_key
      → Agrees s
          (plan_mutation_into s d schema m e)
          (apply_mutation schema m e (apply_delta d s)).0
          (apply_mutation schema m e (apply_delta d s)).1
  unfolding plan_mutation_into apply_mutation
  plan_mutation-Agrees s d schema m e h = rw (planning_reads s d _ h) (
      Agrees-lift s (validate_record_identity schema m none) _ _ (apply_delta d s) λ _.
        Agrees-lift s (validate_vector_dimensions schema m) _ _ (apply_delta d s) λ _.
          Agrees-lift s (ensure (not (is_empty m.tenant_id)) _) _ _ (apply_delta d s) λ _.
            Agrees-lift s (validate_record_identity schema m (some _)) _ _ _ λ _.
              let (sorted, same) = replaced_same s d (record_key m.table m.tenant_id m.id) _ h in
              (sorted, λ j. rw put_versions_twice (same j)))

  -- Planning a replacement into a delta with sorted keys fails as the replacement fails on the store
  -- with that delta applied, and otherwise gives a delta with sorted keys that leaves, applied, the
  -- versions that the replacement leaves.
  pub plan_replacement-Agrees :
      (s : RecordStore V) (d : RecordStoreDelta V) (schema : TableSchema) (m : RecordInput V)
      (e : Epoch)
      → Map.IsSorted d.versions_by_key
      → Agrees s
          (plan_replacement_into s d schema m e)
          (apply_replacement schema m e (apply_delta d s)).0
          (apply_replacement schema m e (apply_delta d s)).1
  unfolding plan_replacement_into apply_replacement plan_replacement_record install_replacement
  plan_replacement-Agrees s d schema m e h =
      Agrees-lift s (build_replacement_record schema m e) _ _ (apply_delta d s)
        λ built. rw (planning_reads s d _ h) (replaced_same s d built.0 _ h)
