-- ===== src/Engine/Parts.antt =====
-- crates/tracedb-store/src/lib.rs: the replay of a commit, part by part.
use tracedb.Base.{List, [], ◌∷◌, ◌≡◌, false, is_empty, trim, keep}
use tracedb.Base.Exec.{Exec, for_each}
use tracedb.Core.Error.{TraceDbError}
use tracedb.Core.Types.{TableSchema, RecordInput, FeatureInvalidation, External}
use tracedb.Log.Commit.{CommitRecord}
use tracedb.Store.Record.{RecordStore, RecordStoreDelta, apply_delta}
use tracedb.Store.PlanApply.{SameVersions}
use tracedb.Store.Replay.{
  apply_commit, replay_mutation, replay_replacement, replay_deletion, replay_invalidation,
  is_outdated_by,
}
use tracedb.Store.Rebuild.{Leaves, continue-Leaves, dropped-Leaves}
use tracedb.Store.Planned.{Marks}
use tracedb.Store.Redundant.{replay_invalidations-Leaves}
use tracedb.Engine.State.{feature_invalidations_for_mutation}

module _ {V : Type 0} where
  pub one-Leaves :
      {A : Type 0} (step : A → Exec (RecordStore V) TraceDbError Unit) (xs : List A) (x : A)
      (s live : RecordStore V)
      → xs ≡ x ∷ []
      → Leaves (step x s) live
      → Leaves (for_each step xs s) live
  one-Leaves step xs x s live one h = rw one (dropped-Leaves (step x s) live h)

  pub none-Leaves :
      {A : Type 0} (step : A → Exec (RecordStore V) TraceDbError Unit) (xs : List A)
      (s live : RecordStore V)
      → xs ≡ []
      → SameVersions s live
      → Leaves (for_each step xs s) live
  none-Leaves step xs s live nothing h = rw nothing h

module _ {V : Type 0} ⦃x : External V⦄ where
  -- The parts of a commit, one after the other.
  pub parts-Leaves :
      (schemas : List TableSchema) (c : CommitRecord V)
      (st replaced mutated deleted live : RecordStore V)
      → Leaves (for_each (replay_replacement schemas c.epoch) c.replacements st) replaced
      → ((s : RecordStore V)
          → SameVersions s replaced
          → Leaves (for_each (replay_mutation schemas c.epoch) c.mutations s) mutated)
      → ((s : RecordStore V)
          → SameVersions s mutated
          → Leaves (for_each (replay_deletion schemas c.epoch) c.deletions s) deleted)
      → ((s : RecordStore V)
          → SameVersions s deleted
          → Leaves (for_each (replay_invalidation c) c.feature_invalidations s) live)
      → Leaves (apply_commit schemas c st) live
  unfolding apply_commit
  parts-Leaves schemas c st replaced mutated deleted live first second third last =
      continue-Leaves (for_each (replay_replacement schemas c.epoch) c.replacements st) _ replaced
        live first
        λ _ s1 same1.
          continue-Leaves (for_each (replay_mutation schemas c.epoch) c.mutations s1) _ mutated live
            (second s1 same1)
            λ _ s2 same2.
              continue-Leaves (for_each (replay_deletion schemas c.epoch) c.deletions s2) _ deleted
                live (third s2 same2) λ _ s3 same3. last s3 same3

  -- The invalidations of a write that a plan has marked.
  pub marked-Leaves :
      (stored : RecordStore V) (schema : TableSchema) (m : RecordInput V) (c : CommitRecord V)
      (invalidations : List FeatureInvalidation) (d : RecordStoreDelta V) (s : RecordStore V)
      → invalidations ≡ feature_invalidations_for_mutation schema m
      → is_empty (trim m.tenant_id) ≡ false
      → Marks stored schema m c.epoch d
      → SameVersions s (apply_delta d stored)
      → Leaves (for_each (replay_invalidation c) invalidations s) (apply_delta d stored)
  unfolding feature_invalidations_for_mutation
  marked-Leaves stored schema m c invalidations d s outdated named
        (sorts, (r, current, sorted, dirty)) same =
      rw outdated (
        replay_invalidations-Leaves c m (keep (is_outdated_by m.fields) schema.vector_columns) s
          (apply_delta d stored) named same r current sorted dirty)
