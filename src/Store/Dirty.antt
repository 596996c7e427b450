-- ===== src/Store/Dirty.antt =====
-- The features that a write of crates/tracedb-store/src/lib.rs outdates: the new version holds them
-- as dirty, so the invalidation of the same commit changes nothing.
use tracedb.Base.{
  Text, text_eq, text_eq_iff, true, false, some, List, [], ◌∷◌, ◌≡◌, refl, arith, any, keep, All,
  Bool-cases, inl, inr,
}
use tracedb.Base.Map
use tracedb.Base.Map.{Map}
use tracedb.Core.Types.{Epoch, VectorColumnSchema, DerivedFeatureState, FeatureStatus, External}
use tracedb.Core.Features.{missing, dirty_from}
use tracedb.Store.Replay.{is_outdated_by}
use tracedb.Store.Build.{feature_state_for, build_vectors}

-- The feature is dirty since the epoch.
abbrev pub IsDirtyAt : Epoch → Text → Map DerivedFeatureState → Type 0
IsDirtyAt e name features =
    (state : DerivedFeatureState) × (Map.get name features ≡ some state)
    × (state.status ≡ FeatureStatus.dirty)
    × (state.valid_for_epoch ≡ e)

module _ {V : Type 0} ⦃x : External V⦄ where
  -- A column that is not written and whose source is, gets a dirty state.
  outdated-IsDirtyAt :
      (vector : VectorColumnSchema) (written merged : Map V) (features : Map DerivedFeatureState)
      (e : Epoch)
      → Map.contains_key vector.name written ≡ false
      → any (λ source. Map.contains_key source written) vector.source_columns ≡ true
      → let state = feature_state_for vector written merged features e in
        (state.status ≡ FeatureStatus.dirty) × (state.valid_for_epoch ≡ e)
  unfolding feature_state_for dirty_from missing
  outdated-IsDirtyAt vector written merged features e p q = ground arith

  -- A dirty state of a column that is not written stays dirty.
  kept-IsDirtyAt :
      (vector : VectorColumnSchema) (written merged : Map V) (features : Map DerivedFeatureState)
      (e : Epoch)
      → Map.contains_key vector.name written ≡ false
      → IsDirtyAt e vector.name features
      → let state = feature_state_for vector written merged features e in
        (state.status ≡ FeatureStatus.dirty) × (state.valid_for_epoch ≡ e)
  unfolding feature_state_for dirty_from
  kept-IsDirtyAt vector written merged features e p (state, found, dirty, since) = ground arith

  insert-IsDirtyAt :
      (name : Text) (vector : VectorColumnSchema) (written merged : Map V)
      (features : Map DerivedFeatureState) (e : Epoch)
      → Map.contains_key name written ≡ false
      → IsDirtyAt e name features
      → IsDirtyAt e name
          (Map.insert vector.name (feature_state_for vector written merged features e) features)
  insert-IsDirtyAt name vector written merged features e p h =
      elim (Bool-cases (text_eq name vector.name)) [
        | inl same ↦
            let named = (text_eq_iff name vector.name).0 same in
            let (dirty, since) =
              kept-IsDirtyAt vector written merged features e (rw (← named) p) (rw (← named) h) in
            (
              feature_state_for vector written merged features e,
              rw (Map.get-insert, same) refl,
              dirty,
              since,
            )
        | inr other ↦
            let (state, found, dirty, since) = h in
            (state, rw (Map.get-insert, other) found, dirty, since)
      ]

  build_vectors-keeps :
      (name : Text) (vectors : List VectorColumnSchema) (written merged : Map V)
      (features : Map DerivedFeatureState) (e : Epoch)
      → Map.contains_key name written ≡ false
      → IsDirtyAt e name features
      → IsDirtyAt e name (build_vectors vectors written merged features e)
  unfolding build_vectors
  build_vectors-keeps name [] written merged features e p h = h
  build_vectors-keeps name (vector ∷ vectors) written merged features e p h =
      build_vectors-keeps name vectors written merged _ e p
        (insert-IsDirtyAt name vector written merged features e p h)

  outdated_parts :
      (vector : VectorColumnSchema) (written : Map V)
      → is_outdated_by written vector ≡ true
      → (Map.contains_key vector.name written ≡ false)
        × (any (λ source. Map.contains_key source written) vector.source_columns ≡ true)
  outdated_parts vector written h = ground arith

  -- All columns that the write outdates are dirty in what is built.
  pub build_vectors-outdated :
      (vectors : List VectorColumnSchema) (written merged : Map V)
      (features : Map DerivedFeatureState) (e : Epoch)
      → All
          (λ vector. IsDirtyAt e vector.name (build_vectors vectors written merged features e))
          (keep (is_outdated_by written) vectors)
  unfolding build_vectors
  build_vectors-outdated [] written merged features e = tt
  build_vectors-outdated (vector ∷ vectors) written merged features e =
      let rest =
        build_vectors-outdated vectors written merged
          (Map.insert vector.name (feature_state_for vector written merged features e) features)
          e in
      elim (Bool-cases (is_outdated_by written vector)) [
        | inr current ↦ rw current rest
        | inl outdated ↦
            let (absent, source) = outdated_parts vector written outdated in
            let (dirty, since) =
              outdated-IsDirtyAt vector written merged features e absent source in
            rw outdated (
              build_vectors-keeps vector.name vectors written merged _ e absent (
                feature_state_for vector written merged features e,
                Map.get-insert_self vector.name _ features,
                dirty,
                since,
              ),
              rest,
            )
      ]

  pub build_vectors-IsSorted :
      (vectors : List VectorColumnSchema) (written merged : Map V)
      (features : Map DerivedFeatureState) (e : Epoch)
      → Map.IsSorted features
      → Map.IsSorted (build_vectors vectors written merged features e)
  unfolding build_vectors
  build_vectors-IsSorted [] written merged features e h = h
  build_vectors-IsSorted (vector ∷ vectors) written merged features e h =
      build_vectors-IsSorted vectors written merged _ e (
        Map.insert-IsSorted vector.name (feature_state_for vector written merged features e)
          features h)
