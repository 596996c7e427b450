-- ===== src/Store/AnyWrite.antt =====
-- crates/tracedb-store/src/lib.rs: a write of any kind, planned and applied, and reads at earlier
-- epochs.
use tracedb.Base.{◌<◌, Text, Bool, true, false, ◌≡◌}
use tracedb.Base.Map
use tracedb.Core.Types.{Epoch, External}
use tracedb.Store.Record.{RecordStore, RecordStoreDelta, apply_delta}
use tracedb.Store.Apply.{
  apply_mutation, apply_replacement, apply_delete, apply_feature_invalidation,
}
use tracedb.Store.Plan.{
  plan_mutation_into, plan_replacement_into, plan_delete_into, plan_feature_invalidation_into,
}
use tracedb.Store.PlanApply.{
  Agrees, plan_mutation-Agrees, plan_replacement-Agrees, plan_delete-Agrees,
  plan_feature_invalidation-Agrees,
}
use tracedb.Store.Isolation.{
  view_at, apply_mutation-isolated, apply_replacement-isolated, apply_delete-isolated,
}
use tracedb.Store.Invariant.{Write, replacement, mutation, deletion, invalidation, after}

abbrev pub writes_version : {V : Type 0} → Write V → Bool
writes_version (replacement _ _) = true
writes_version (mutation _ _) = true
writes_version (deletion _ _) = true
writes_version (invalidation _) = false

module _ {V : Type 0} ⦃x : External V⦄ where
  -- The plan of a write on a store with a delta, beside the write on the store that has taken it.
  abbrev pub PlanAgrees : RecordStore V → RecordStoreDelta V → Epoch → Write V → Type 0
  PlanAgrees s d e (replacement schema m) =
      let r = apply_replacement schema m e (apply_delta d s) in
      Agrees s (plan_replacement_into s d schema m e) r.0 r.1
  PlanAgrees s d e (mutation schema m) =
      let r = apply_mutation schema m e (apply_delta d s) in
      Agrees s (plan_mutation_into s d schema m e) r.0 r.1
  PlanAgrees s d e (deletion schema m) =
      let r = apply_delete schema m e (apply_delta d s) in
      Agrees s (plan_delete_into s d schema m e) r.0 r.1
  PlanAgrees s d e (invalidation i) =
      let r = apply_feature_invalidation i e (apply_delta d s) in
      Agrees s (plan_feature_invalidation_into s d i e) r.0 r.1

  -- Planning a write of any kind (a replacement, a mutation, a deletion or a feature invalidation)
  -- into a delta with sorted keys fails with the error of that write on the store with the delta
  -- applied; and where that write succeeds it gives a delta with sorted keys that leaves, applied,
  -- the versions that the write leaves.
  pub plan-agrees :
      (w : Write V) (s : RecordStore V) (d : RecordStoreDelta V) (e : Epoch)
      → Map.IsSorted d.versions_by_key
      → PlanAgrees s d e w
  plan-agrees (replacement schema m) s d e h = plan_replacement-Agrees s d schema m e h
  plan-agrees (mutation schema m) s d e h = plan_mutation-Agrees s d schema m e h
  plan-agrees (deletion schema m) s d e h = plan_delete-Agrees s d schema m e h
  plan-agrees (invalidation i) s d e h = plan_feature_invalidation-Agrees s d i e h

  -- A write of a version at epoch `e`, a replacement, a mutation or a deletion, whether it succeeds
  -- or fails, leaves what a read of any record at an earlier epoch returns, but for the end of the
  -- version that is returned.
  pub after-isolated :
      (w : Write V) (e e' : Epoch) (s : RecordStore V) (t n i : Text)
      → writes_version w ≡ true
      → e' < e
      → view_at (after w e s) t n i e' ≡ view_at s t n i e'
  after-isolated (replacement schema m) e e' s t n i _ h =
      apply_replacement-isolated schema m e e' s t n i h
  after-isolated (mutation schema m) e e' s t n i _ h =
      apply_mutation-isolated schema m e e' s t n i h
  after-isolated (deletion schema d) e e' s t n i _ h =
      apply_delete-isolated schema d e e' s t n i h
  after-isolated (invalidation _) e e' s t n i kind h = cc
