-- ===== src/Engine/Steps.antt =====
-- crates/tracedb-query/src/lib.rs: each write of `TraceDb` beside the replay of its commit.
use tracedb.Base.{
  Gives-ok, ◌+◌, ◌<◌, ◌^◌, Text, text_eq, any, codes, false, not, Option, List, [], ◌∷◌, ◌++◌, ◌≡◌,
  ◌∙◌, refl, arith, is_empty, trim, ok, ok_or-eq-ok, ensure,
}
use mathlib.Core.List.{append-nil}
use tracedb.Base.Exec.{lift-keeps}
use tracedb.Base.Map
use tracedb.Core.Error.{invalid_record, not_found}
use tracedb.Core.Types.{
  Epoch, TableSchema, RecordInput, RecordDeletion, FeatureInvalidation, External,
}
use tracedb.Log.Commit.{CommitRecord, IdempotencyReceipt}
use tracedb.Jobs.Engine.{replay_from}
use tracedb.Store.Record.{RecordStore, RecordStoreDelta, default_delta, apply_delta}
use tracedb.Store.Apply.{feature_path}
use tracedb.Store.Plan.{
  plan_mutation_into, plan_replacement_into, plan_delete_into, plan_feature_invalidation_into,
}
use tracedb.Store.PlanApply.{SameVersions}
use tracedb.Store.Replay.{
  known_table, apply_commit, replay_mutation, replay_replacement, replay_deletion,
  replay_invalidation,
}
use tracedb.Store.Rebuild.{
  Leaves, find_table-append, replay_mutation-Leaves, replay_replacement-Leaves,
  replay_deletion-Leaves, replay_invalidation-Leaves,
}
use tracedb.Store.Planned.{
  HasSortedFeatures, plan_delete-Sorts, plan_feature_invalidation-Sorts, plan_mutation-Marks,
  plan_replacement-Marks,
}
use tracedb.Engine.State.{TraceDb, Host, next_epoch, bumped, bump_manifest}
use tracedb.Engine.Append.{IsWhole, append-keeps}
use tracedb.Engine.Writes.{
  commit_delta, write_mutation, put, delete, set_feature_status, record_idempotency_receipt,
}
use tracedb.Engine.Parts.{parts-Leaves, one-Leaves, marked-Leaves}
use tracedb.Engine.Durable.{IsDurable, append-IsDurable}

pub next_epoch-eq : (e : Epoch) → e + 1 < 2 ^ 64 → next_epoch e ≡ e + 1
next_epoch-eq e h = omega arith

-- The state after a commit, however the manifest fares.
abbrev committed : {V : Type 0} → CommitRecord V → RecordStoreDelta V → TraceDb V → TraceDb V
committed c d db = record db {
  manifest = bumped c.epoch db.manifest;
  log = db.log ++ c ∷ [];
  store = apply_delta d db.store;
  idempotency_receipts = db.idempotency_receipts ++ c.idempotency_receipts;
}

not_empty :
    (t : Text)
    → ensure (not (is_empty t)) (invalid_record (codes "tenant id cannot be empty")) ≡ ok tt
    → is_empty t ≡ false
not_empty [] h = cc
not_empty (_ ∷ _) h = refl

module _ {V : Type 0} ⦃x : External V⦄ (host : Host V) (whole : IsWhole host) (db : TraceDb V)
    (durable : IsDurable db) (room : db.manifest.latest_epoch + 1 < 2 ^ 64) where
  commit_delta-IsDurable :
      (c : CommitRecord V) (d : RecordStoreDelta V)
      → c.schema_changes ≡ []
      → c.job_events ≡ []
      → c.epoch ≡ db.manifest.latest_epoch + 1
      → HasSortedFeatures (apply_delta d db.store)
      → ((more : List TableSchema) (st : RecordStore V)
          → SameVersions st db.store
          → Leaves (apply_commit (db.manifest.schemas ++ more) c st) (apply_delta d db.store))
      → IsDurable (commit_delta host c d db).1
  unfolding commit_delta bump_manifest replay_from
  commit_delta-IsDurable c d schemas jobs epoch sorted replay =
      let after = committed c d db in
      let good =
        append-IsDurable db after c durable refl (rw (schemas, append-nil db.manifest.schemas) refl)
          durable.names refl (rw jobs refl) epoch epoch sorted replay in
      append-keeps IsDurable host whole c _ db durable
        λ _. lift-keeps IsDurable (host.write_manifest after.manifest) _ after good λ _ _. good

  pub write_mutation-IsDurable :
      (event : Text) (input : RecordInput V) (receipt : Option IdempotencyReceipt)
      → is_empty (trim input.tenant_id) ≡ false
      → IsDurable (write_mutation event host input receipt db).1
  unfolding write_mutation known_table
  write_mutation-IsDurable event input receipt named =
      let epoch = next_epoch db.manifest.latest_epoch in
      lift-keeps IsDurable (known_table input.table db.manifest.schemas) _ db durable
        λ schema known.
          lift-keeps IsDurable (plan_mutation_into db.store default_delta schema input epoch) _ db
            durable
            λ d planned.
              let marks =
                Gives-ok _ _ d (plan_mutation-Marks db.store schema input epoch durable.sorted)
                  planned in
              let live = apply_delta d db.store in
              let schemas = db.manifest.schemas in
              commit_delta-IsDurable _ d refl refl (next_epoch-eq _ room) marks.0.1 λ more st same.
                parts-Leaves _ _ st st live live live (λ _. refl)
                  (λ s left.
                    one-Leaves (replay_mutation (schemas ++ more) epoch) _ input s live refl (
                      replay_mutation-Leaves _ schema input epoch s db.store d
                        (find_table-append _ _ more schema (ok_or-eq-ok _ _ known))
                        (λ j. left j ∙ same j) planned))
                  (λ s left. left)
                  (λ s left. marked-Leaves db.store schema input _ _ d s refl named marks left)

  pub put-IsDurable :
      (input : RecordInput V) (receipt : Option IdempotencyReceipt)
      → is_empty (trim input.tenant_id) ≡ false
      → IsDurable (put host input receipt db).1
  unfolding put known_table
  put-IsDurable input receipt named =
      let epoch = next_epoch db.manifest.latest_epoch in
      lift-keeps IsDurable (known_table input.table db.manifest.schemas) _ db durable
        λ schema known.
          lift-keeps IsDurable (plan_replacement_into db.store default_delta schema input epoch) _
            db durable
            λ d planned.
              let marks =
                Gives-ok _ _ d (plan_replacement-Marks db.store schema input epoch durable.sorted)
                  planned in
              let live = apply_delta d db.store in
              let schemas = db.manifest.schemas in
              commit_delta-IsDurable _ d refl refl (next_epoch-eq _ room) marks.0.1 λ more st same.
                parts-Leaves _ _ st live live live live
                  (one-Leaves (replay_replacement (schemas ++ more) epoch) _ input st live refl (
                    replay_replacement-Leaves _ schema input epoch st db.store d
                      (find_table-append _ _ more schema (ok_or-eq-ok _ _ known)) same planned))
                  (λ s left. left) (λ s left. left)
                  (λ s left. marked-Leaves db.store schema input _ _ d s refl named marks left)

  pub delete-IsDurable :
      (deletion : RecordDeletion) (receipt : Option IdempotencyReceipt)
      → IsDurable (delete host deletion receipt db).1
  unfolding delete known_table
  delete-IsDurable deletion receipt =
      let epoch = next_epoch db.manifest.latest_epoch in
      lift-keeps IsDurable (known_table deletion.table db.manifest.schemas) _ db durable
        λ schema known.
          lift-keeps IsDurable (plan_delete_into db.store default_delta schema deletion epoch) _ db
            durable
            λ d planned.
              let sorts =
                Gives-ok _ _ d (plan_delete-Sorts db.store schema deletion epoch durable.sorted)
                  planned in
              let live = apply_delta d db.store in
              let schemas = db.manifest.schemas in
              commit_delta-IsDurable _ d refl refl (next_epoch-eq _ room) sorts.1 λ more st same.
                parts-Leaves _ _ st st st live live (λ _. refl) (λ s left. left)
                  (λ s left.
                    one-Leaves (replay_deletion (schemas ++ more) epoch) _ deletion s live refl (
                      replay_deletion-Leaves _ schema deletion epoch s db.store d
                        (find_table-append _ _ more schema (ok_or-eq-ok _ _ known))
                        (λ j. left j ∙ same j) planned))
                  (λ s left. left)

  pub set_feature_status-IsDurable :
      (i : FeatureInvalidation) → IsDurable (set_feature_status host i db).1
  unfolding set_feature_status
  set_feature_status-IsDurable i =
      let epoch = next_epoch db.manifest.latest_epoch in
      lift-keeps IsDurable (ensure (not (is_empty (trim i.tenant_id))) _) _ db durable λ _ named.
        lift-keeps IsDurable (known_table i.table db.manifest.schemas) _ db durable λ schema known.
          lift-keeps IsDurable
            (ensure (any (λ vector. text_eq vector.name i.feature) schema.vector_columns)
              (not_found (feature_path i)))
            _ db durable
            λ _ _.
              lift-keeps IsDurable (plan_feature_invalidation_into db.store default_delta i epoch) _
                db durable
                λ d planned.
                  let sorts =
                    Gives-ok _ _ d (plan_feature_invalidation-Sorts db.store i epoch durable.sorted)
                      planned in
                  let live = apply_delta d db.store in
                  commit_delta-IsDurable _ d refl refl (next_epoch-eq _ room) sorts.1
                    λ more st same.
                      parts-Leaves _ _ st st st st live (λ _. refl) (λ s left. left)
                        (λ s left. left)
                        (λ s left. one-Leaves (replay_invalidation _) _ i s live refl (
                          replay_invalidation-Leaves _ i s db.store d (not_empty _ named)
                            (λ j. left j ∙ same j) planned))

  pub record_idempotency_receipt-IsDurable :
      (receipt : IdempotencyReceipt) → IsDurable (record_idempotency_receipt host receipt db).1
  unfolding record_idempotency_receipt apply_delta Map.extend
  record_idempotency_receipt-IsDurable receipt =
      commit_delta-IsDurable _ default_delta refl refl (next_epoch-eq _ room) durable.sorted
        λ more st same.
          parts-Leaves _ _ st st st st db.store (λ _. refl) (λ s left. left) (λ s left. left)
            (λ s left j. left j ∙ same j)
