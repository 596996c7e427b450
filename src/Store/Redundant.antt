-- ===== src/Store/Redundant.antt =====
-- crates/tracedb-store/src/lib.rs: the invalidations that the replay of a write finds done.
use tracedb.Base.{
  Text, Bool, false, Option, none, some, unwrap_or, List, [], ◌∷◌, ◌≡◌, refl, ◌∙◌, arith, All, map,
  is_empty, trim, find_last, find_last-none_of_any, any-none_of_find_last, text_eq_iff, modify_last,
  Result, ok, err,
}
use tracedb.Base.Exec.{for_each}
use tracedb.Base.Map
use tracedb.Core.Error.{TraceDbError}
use tracedb.Core.Types.{
  Epoch, VectorColumnSchema, RecordInput, FeatureInvalidation, FeatureStatus, DerivedFeatureState,
}
use tracedb.Log.Commit.{CommitRecord}
use tracedb.Store.Record.{StoredRecord, RecordStore, record_key, is_live, versions_at, put_versions}
use tracedb.Store.Apply.{apply_feature_invalidation, set_feature, invalidated}
use tracedb.Store.Versions.{versions_at-put_versions}
use tracedb.Store.PlanApply.{SameVersions}
use tracedb.Store.Replay.{replay_invalidation, dirty_invalidation}
use tracedb.Store.Rebuild.{Leaves, continue-Leaves, dropped-Leaves}
use tracedb.Store.Dirty.{IsDirtyAt}

modify_last-same :
    {A : Type 0} (p : A → Bool) (f : A → A) (xs : List A) (y : A)
    → find_last p xs ≡ some y
    → f y ≡ y
    → modify_last p f xs ≡ xs
modify_last-same p f [] y found same = refl
modify_last-same p f (x ∷ xs) y found same =
    ground
      (arith, modify_last-same p f xs y, find_last-none_of_any p xs, any-none_of_find_last p xs)

module _ {V : Type 0} where
  set_feature-same :
      (i : FeatureInvalidation) (e : Epoch) (r : StoredRecord V) (state : DerivedFeatureState)
      → i.status ≡ FeatureStatus.dirty
      → Map.IsSorted r.features
      → Map.get i.feature r.features ≡ some state
      → state.status ≡ FeatureStatus.dirty
      → state.valid_for_epoch ≡ e
      → set_feature i.feature (invalidated i e state) r ≡ r
  set_feature-same i e r state status sorted found dirty since =
      rw (status, ← dirty, ← since)
        (rw (Map.insert-get i.feature state r.features sorted found) refl)

  put_back :
      (key : Text) (versions : List (StoredRecord V)) (s : RecordStore V)
      → versions_at key s ≡ versions
      → SameVersions (put_versions key versions s) s
  put_back key versions s same j = rw versions_at-put_versions (ground (arith, text_eq_iff j key))

  stored_versions :
      (o : Option (List (StoredRecord V))) (r : StoredRecord V)
      → find_last is_live (unwrap_or o []) ≡ some r
      → (versions : List (StoredRecord V)) × (o ≡ some versions)
        × (find_last is_live versions ≡ some r)
  stored_versions none r h = cc
  stored_versions (some versions) r h = (versions, refl, h)

  dirty_again :
      (i : FeatureInvalidation) (e : Epoch) (s : RecordStore V) (r : StoredRecord V)
      → i.status ≡ FeatureStatus.dirty
      → find_last is_live (versions_at (record_key i.table i.tenant_id i.record_id) s) ≡ some r
      → Map.IsSorted r.features
      → IsDirtyAt e i.feature r.features
      → Leaves (apply_feature_invalidation i e s) s
  unfolding apply_feature_invalidation versions_at
  dirty_again i e s r status current sorted (state, found, dirty, since) =
      let key = record_key i.table i.tenant_id i.record_id in
      let (versions, there, live) = stored_versions (Map.get key s.versions) r current in
      let same =
        modify_last-same is_live (set_feature i.feature (invalidated i e state)) versions r live
          (set_feature-same i e r state status sorted found dirty since) in
      rw (there, apply_feature_invalidation)
        (rw live (rw found (rw same (put_back key versions s (rw (there, versions_at) refl)))))

  Leaves-trans :
      {A : Type 0} (r : Result TraceDbError A × RecordStore V) (st live : RecordStore V)
      → Leaves r st
      → SameVersions st live
      → Leaves r live
  Leaves-trans (ok a, s) st live left same = λ j. left j ∙ same j
  Leaves-trans (err _, s) st live left same = elim left [ ]

  dirty_again_replays :
      (commit : CommitRecord V) (input : RecordInput V) (vector : VectorColumnSchema)
      (st live : RecordStore V)
      → is_empty (trim input.tenant_id) ≡ false
      → SameVersions st live
      → (r : StoredRecord V)
      → find_last is_live (versions_at (record_key input.table input.tenant_id input.id) live)
        ≡ some r
      → Map.IsSorted r.features
      → IsDirtyAt commit.epoch vector.name r.features
      → Leaves (replay_invalidation commit (dirty_invalidation input vector) st) live
  unfolding replay_invalidation
  dirty_again_replays commit input vector st live named same r current sorted dirty = rw named (
      dropped-Leaves (apply_feature_invalidation (dirty_invalidation input vector) commit.epoch st)
        live
        (Leaves-trans _ st live
          (dirty_again (dirty_invalidation input vector) commit.epoch st r refl
            (rw (same _) current) sorted dirty)
          same))

  -- The invalidations of a mutation, after it.
  pub replay_invalidations-Leaves :
      (commit : CommitRecord V) (input : RecordInput V) (vectors : List VectorColumnSchema)
      (st live : RecordStore V)
      → is_empty (trim input.tenant_id) ≡ false
      → SameVersions st live
      → (r : StoredRecord V)
      → find_last is_live (versions_at (record_key input.table input.tenant_id input.id) live)
        ≡ some r
      → Map.IsSorted r.features
      → All (λ vector. IsDirtyAt commit.epoch vector.name r.features) vectors
      → Leaves
          (for_each (replay_invalidation commit) (map (dirty_invalidation input) vectors) st)
          live
  replay_invalidations-Leaves commit input [] st live named same r current sorted dirty = same
  replay_invalidations-Leaves commit input (vector ∷ vectors) st live named same r current sorted
        (this, others) =
      continue-Leaves (replay_invalidation commit (dirty_invalidation input vector) st) _ live live
        (dirty_again_replays commit input vector st live named same r current sorted this)
        λ _ s same'.
          replay_invalidations-Leaves commit input vectors s live named same' r current sorted
            others
