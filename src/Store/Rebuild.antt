-- ===== src/Store/Rebuild.antt =====
-- crates/tracedb-store/src/lib.rs: what `apply_commits` does to a store beside what the planned write
-- did to another with the same versions.
use tracedb.Base.{
  ok-injective, Text, false, some, List, [], ◌∷◌, ◌++◌, ◌≡◌, ◌∙◌, sym, refl, arith, trim, is_empty,
  Result, ok, err, ◌>>=◌,
}
use tracedb.Base.Exec.{Exec, pure, continue}
use tracedb.Base.Map
use tracedb.Core.Error.{TraceDbError}
use tracedb.Core.Types.{
  Epoch, TableSchema, RecordInput, RecordDeletion, FeatureInvalidation, External,
}
use tracedb.Log.Commit.{CommitRecord}
use tracedb.Store.Build.{build_replacement_record}
use tracedb.Store.Record.{RecordStore, RecordStoreDelta, default_delta, versions_at, apply_delta}
use tracedb.Store.Apply.{
  apply_mutation, apply_replacement, apply_delete, apply_feature_invalidation,
}
use tracedb.Store.Plan.{
  versions_for_planning, plan_mutation_into, plan_replacement_into, plan_delete_into,
  plan_replacement_record, plan_feature_invalidation_into,
}
use tracedb.Store.PlanApply.{
  SameVersions, Agrees, planning_reads, plan_mutation-Agrees, plan_replacement-Agrees,
  plan_delete-Agrees, plan_feature_invalidation-Agrees,
}
use tracedb.Store.Replay.{
  find_table, known_table, replay_mutation, replay_replacement, replay_deletion,
  replay_invalidation,
}

-- The step went through and left the versions of the store.
abbrev pub Leaves : {V A : Type 0} → Result TraceDbError A × RecordStore V → RecordStore V → Type 0
Leaves (ok _, s) live = SameVersions s live
Leaves (err _, s) live = ⊥

bind-same :
    {E A B : Type 0} (r : Result E A) (f g : A → Result E B)
    → ((a : A) → f a ≡ g a)
    → (r >>= f) ≡ (r >>= g)
bind-same (ok a) f g same = same a
bind-same (err e) f g same = refl

pub find_table-append :
    (name : Text) (schemas more : List TableSchema) (schema : TableSchema)
    → find_table name schemas ≡ some schema
    → find_table name (schemas ++ more) ≡ some schema
unfolding find_table
find_table-append name [] more schema h = cc
find_table-append name (s ∷ schemas) more schema h =
    ground (arith, find_table-append name schemas more schema)

module _ {V : Type 0} where
  -- Plans read the versions only.
  planning_same :
      (s s' : RecordStore V) (d : RecordStoreDelta V) (k : Text)
      → SameVersions s s'
      → versions_for_planning s d k ≡ versions_for_planning s' d k
  unfolding versions_for_planning versions_at
  planning_same s s' d k same = ground (arith, same k)

  pub apply_delta-SameVersions :
      (s s' : RecordStore V) (d : RecordStoreDelta V)
      → Map.IsSorted d.versions_by_key
      → SameVersions s s'
      → SameVersions (apply_delta d s) (apply_delta d s')
  apply_delta-SameVersions s s' d h same j =
      rw (← planning_reads s d j h, ← planning_reads s' d j h) (planning_same s s' d j same)

  -- What goes through as planned leaves what the plan leaves, also on another store with the same versions.
  Agrees-Leaves :
      {A : Type 0} (st live : RecordStore V) (p : Result TraceDbError (RecordStoreDelta V))
      (d : RecordStoreDelta V) (r : Result TraceDbError A) (after : RecordStore V)
      → SameVersions st live
      → p ≡ ok d
      → Agrees st p r after
      → Leaves (r, after) (apply_delta d live)
  Agrees-Leaves st live (ok d') d (ok a) after same e (sorted, agrees) = λ j.
      sym (agrees j)
      ∙ (apply_delta-SameVersions st live d' sorted same j ∙ rw (ok-injective d' d e) refl)
  Agrees-Leaves st live (ok d') d (err e') after same e agrees = elim agrees [ ]
  Agrees-Leaves st live (err e') d (ok a) after same e agrees = cc
  Agrees-Leaves st live (err e') d (err e'') after same e agrees = cc

  -- A step on a schema that is known.
  pub continue-Leaves :
      {A B : Type 0} (r : Result TraceDbError A × RecordStore V)
      (f : A → Exec (RecordStore V) TraceDbError B) (mid live : RecordStore V)
      → Leaves r mid
      → ((a : A) (s : RecordStore V) → SameVersions s mid → Leaves (f a s) live)
      → Leaves (continue r.0 f r.1) live
  continue-Leaves (ok a, s) f mid live same next = next a s same
  continue-Leaves (err _, s) f mid live same next = elim same [ ]

  -- A step whose result is dropped.
  pub dropped-Leaves :
      {A : Type 0} (r : Result TraceDbError A × RecordStore V) (live : RecordStore V)
      → Leaves r live
      → Leaves (continue r.0 (λ _. pure tt) r.1) live
  dropped-Leaves (ok a, s) live same = same
  dropped-Leaves (err _, s) live same = elim same [ ]

module _ {V : Type 0} where
  -- A write that a plan agrees with, on a store with the same versions.
  planned-Leaves :
      {A : Type 0} (plan : RecordStore V → Result TraceDbError (RecordStoreDelta V))
      (apply : Exec (RecordStore V) TraceDbError A) (st live : RecordStore V)
      (d : RecordStoreDelta V)
      → SameVersions st live
      → plan st ≡ plan live
      → plan live ≡ ok d
      → Agrees st
          (plan st)
          (apply (apply_delta default_delta st)).0
          (apply (apply_delta default_delta st)).1
      → Leaves (apply st) (apply_delta d live)
  unfolding apply_delta Map.extend
  planned-Leaves plan apply st live d same reads planned agrees =
      Agrees-Leaves st live (plan st) d (apply st).0 (apply st).1 same (reads ∙ planned) agrees

  plan_delete-same :
      (s s' : RecordStore V) (schema : TableSchema) (deletion : RecordDeletion) (e : Epoch)
      → SameVersions s s'
      → plan_delete_into s default_delta schema deletion e
        ≡ plan_delete_into s' default_delta schema deletion e
  unfolding plan_delete_into
  plan_delete-same s s' schema deletion e same = rw (planning_same s s' default_delta _ same) refl

  plan_feature_invalidation-same :
      (s s' : RecordStore V) (i : FeatureInvalidation) (e : Epoch)
      → SameVersions s s'
      → plan_feature_invalidation_into s default_delta i e
        ≡ plan_feature_invalidation_into s' default_delta i e
  unfolding plan_feature_invalidation_into
  plan_feature_invalidation-same s s' i e same = rw (planning_same s s' default_delta _ same) refl

  pub replay_deletion-Leaves :
      (schemas : List TableSchema) (schema : TableSchema) (deletion : RecordDeletion) (e : Epoch)
      (st live : RecordStore V) (d : RecordStoreDelta V)
      → find_table deletion.table schemas ≡ some schema
      → SameVersions st live
      → plan_delete_into live default_delta schema deletion e ≡ ok d
      → Leaves (replay_deletion schemas e deletion st) (apply_delta d live)
  unfolding replay_deletion known_table
  replay_deletion-Leaves schemas schema deletion e st live d known same planned = rw known (
      dropped-Leaves (apply_delete schema deletion e st) (apply_delta d live) (
        planned-Leaves (λ s. plan_delete_into s default_delta schema deletion e)
          (apply_delete schema deletion e) st live d same
          (plan_delete-same st live schema deletion e same) planned
          (plan_delete-Agrees st default_delta schema deletion e tt)))

  -- An invalidation whose tenant is not blank.
  pub replay_invalidation-Leaves :
      (commit : CommitRecord V) (i : FeatureInvalidation) (st live : RecordStore V)
      (d : RecordStoreDelta V)
      → is_empty (trim i.tenant_id) ≡ false
      → SameVersions st live
      → plan_feature_invalidation_into live default_delta i commit.epoch ≡ ok d
      → Leaves (replay_invalidation commit i st) (apply_delta d live)
  unfolding replay_invalidation
  replay_invalidation-Leaves commit i st live d named same planned = rw named (
      dropped-Leaves (apply_feature_invalidation i commit.epoch st) (apply_delta d live) (
        planned-Leaves (λ s. plan_feature_invalidation_into s default_delta i commit.epoch)
          (apply_feature_invalidation i commit.epoch) st live d same
          (plan_feature_invalidation-same st live i commit.epoch same) planned
          (plan_feature_invalidation-Agrees st default_delta i commit.epoch tt)))

module _ {V : Type 0} ⦃x : External V⦄ where
  plan_mutation-same :
      (s s' : RecordStore V) (schema : TableSchema) (m : RecordInput V) (e : Epoch)
      → SameVersions s s'
      → plan_mutation_into s default_delta schema m e
        ≡ plan_mutation_into s' default_delta schema m e
  unfolding plan_mutation_into
  plan_mutation-same s s' schema m e same = rw (planning_same s s' default_delta _ same) refl

  pub plan_replacement-same :
      (s s' : RecordStore V) (d : RecordStoreDelta V) (schema : TableSchema) (m : RecordInput V)
      (e : Epoch)
      → SameVersions s s'
      → plan_replacement_into s d schema m e ≡ plan_replacement_into s' d schema m e
  unfolding plan_replacement_into plan_replacement_record
  plan_replacement-same s s' d schema m e same =
      bind-same (build_replacement_record schema m e) _ _
        λ built. rw (planning_same s s' d built.0 same) refl

  pub replay_mutation-Leaves :
      (schemas : List TableSchema) (schema : TableSchema) (m : RecordInput V) (e : Epoch)
      (st live : RecordStore V) (d : RecordStoreDelta V)
      → find_table m.table schemas ≡ some schema
      → SameVersions st live
      → plan_mutation_into live default_delta schema m e ≡ ok d
      → Leaves (replay_mutation schemas e m st) (apply_delta d live)
  unfolding replay_mutation known_table
  replay_mutation-Leaves schemas schema m e st live d known same planned = rw known (
      dropped-Leaves (apply_mutation schema m e st) (apply_delta d live) (
        planned-Leaves (λ s. plan_mutation_into s default_delta schema m e)
          (apply_mutation schema m e) st live d same (plan_mutation-same st live schema m e same)
          planned (plan_mutation-Agrees st default_delta schema m e tt)))

  pub replay_replacement-Leaves :
      (schemas : List TableSchema) (schema : TableSchema) (m : RecordInput V) (e : Epoch)
      (st live : RecordStore V) (d : RecordStoreDelta V)
      → find_table m.table schemas ≡ some schema
      → SameVersions st live
      → plan_replacement_into live default_delta schema m e ≡ ok d
      → Leaves (replay_replacement schemas e m st) (apply_delta d live)
  unfolding replay_replacement known_table
  replay_replacement-Leaves schemas schema m e st live d known same planned = rw known (
      dropped-Leaves (apply_replacement schema m e st) (apply_delta d live) (
        planned-Leaves (λ s. plan_replacement_into s default_delta schema m e)
          (apply_replacement schema m e) st live d same
          (plan_replacement-same st live default_delta schema m e same) planned
          (plan_replacement-Agrees st default_delta schema m e tt)))
