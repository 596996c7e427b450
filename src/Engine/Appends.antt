-- ===== src/Engine/Appends.antt =====
-- crates/tracedb-query/src/lib.rs: what a call appends to the log.
use tracedb.Base.{
  ◌+◌, ◌-◌, ◌≤◌, ◌<◌, ◌^◌, ◌∷◌, [], ◌++◌, Text, codes, text_eq, text_eq_iff, any, not, true, Option,
  ◌≡◌, ◌⊎◌, inl, inr, refl, arith, is_empty, trim, ensure, ok,
}
use tracedb.Base.Exec.{lift-keeps}
use tracedb.Core.Error.{not_found}
use tracedb.Core.Types.{
  Epoch, TableSchema, RecordInput, RecordDeletion, FeatureInvalidation, External,
}
use tracedb.Core.Schema.{validate_schema}
use tracedb.Log.Commit.{CommitRecord, IdempotencyReceipt}
use tracedb.Log.Built.{is_committed}
use tracedb.Jobs.Catalog.{JobEvent, JobCatalog}
use tracedb.Store.Record.{RecordStoreDelta, default_delta}
use tracedb.Store.Apply.{feature_path}
use tracedb.Store.Plan.{
  plan_mutation_into, plan_replacement_into, plan_delete_into, plan_feature_invalidation_into,
}
use tracedb.Store.Replay.{known_table}
use tracedb.Engine.State.{TraceDb, Host, next_epoch, bump_manifest}
use tracedb.Engine.Checks.{validate_schema_compatible}
use tracedb.Engine.Append.{IsWhole, append-keeps}
use tracedb.Engine.Writes.{
  commit_delta, write_mutation, put, delete, set_feature_status, record_idempotency_receipt,
  append_job_event, apply_schema,
}

next_epoch-le : (e : Epoch) → next_epoch e ≤ e + 1
next_epoch-le e = omega arith

-- A commit with the marker, at the epoch after the latest one.
abbrev pub IsNext : {V : Type 0} → TraceDb V → CommitRecord V → Type 0
IsNext db c =
    (c.commit_marker ≡ codes "COMMITTED")
    × (c.epoch ≡ next_epoch db.manifest.latest_epoch)
    × (c.parent_epoch ≡ c.epoch - 1)

-- A call stops before its commit, or the host takes one: then it is in the log, and its epoch is the
-- latest.
abbrev pub Appends : {V : Type 0} → Host V → TraceDb V → TraceDb V → Type 0
Appends {V} host db after =
    ((after.log ≡ db.log) × (after.manifest.latest_epoch ≡ db.manifest.latest_epoch))
    ⊎ ((c : CommitRecord V) × IsNext db c
        × (host.append_commit c db.log ≡ (ok tt, db.log ++ c ∷ []))
        × (after.log ≡ db.log ++ c ∷ [])
        × (after.manifest.latest_epoch ≡ c.epoch))

-- The latest epoch is at most one further.
pub Appends-latest :
    {V : Type 0} (host : Host V) (db after : TraceDb V)
    → Appends host db after
    → after.manifest.latest_epoch ≤ db.manifest.latest_epoch + 1
Appends-latest host db after (inl (same, still)) = omega arith
Appends-latest host db after (inr (c, (marked, next, parent), taken, grown, now)) =
    let bound = next_epoch-le db.manifest.latest_epoch in rw (now, next) bound

pub IsNext-is_committed :
    {V : Type 0} (db : TraceDb V) (c : CommitRecord V)
    → IsNext db c
    → db.manifest.latest_epoch + 1 < 2 ^ 64
    → is_committed c ≡ true
IsNext-is_committed db c (marked, next, parent) room =
    ground (arith, text_eq_iff c.commit_marker (codes "COMMITTED"))

module _ {V : Type 0} (host : Host V) (whole : IsWhole host) (db : TraceDb V) where
  stays : Appends host db db
  stays = inl (refl, refl)

  commit_delta-Appends :
      (c : CommitRecord V) (d : RecordStoreDelta V)
      → IsNext db c
      → Appends host db (commit_delta host c d db).1
  unfolding commit_delta bump_manifest
  commit_delta-Appends c d next = append-keeps (Appends host db) host whole c _ db stays λ taken.
      let grown = inr (c, next, taken, refl, refl) in
      lift-keeps (Appends host db) (host.write_manifest _) _ _ grown λ _ _. grown

  pub delete-Appends :
      (deletion : RecordDeletion) (receipt : Option IdempotencyReceipt)
      → Appends host db (delete host deletion receipt db).1
  unfolding delete
  delete-Appends deletion receipt =
      lift-keeps (Appends host db) (known_table deletion.table db.manifest.schemas) _ db stays
        λ schema _.
          lift-keeps (Appends host db) (plan_delete_into db.store default_delta schema deletion _) _
            db stays λ d _. commit_delta-Appends _ d (refl, refl, refl)

  pub set_feature_status-Appends :
      (i : FeatureInvalidation) → Appends host db (set_feature_status host i db).1
  unfolding set_feature_status
  set_feature_status-Appends i =
      lift-keeps (Appends host db) (ensure (not (is_empty (trim i.tenant_id))) _) _ db stays λ _ _.
        lift-keeps (Appends host db) (known_table i.table db.manifest.schemas) _ db stays
          λ schema _.
            lift-keeps (Appends host db)
              (ensure (any (λ vector. text_eq vector.name i.feature) schema.vector_columns)
                (not_found (feature_path i)))
              _ db stays
              λ _ _.
                lift-keeps (Appends host db)
                  (plan_feature_invalidation_into db.store default_delta i
                    (next_epoch db.manifest.latest_epoch))
                  _ db stays λ d _. commit_delta-Appends _ d (refl, refl, refl)

  pub record_idempotency_receipt-Appends :
      (receipt : IdempotencyReceipt)
      → Appends host db (record_idempotency_receipt host receipt db).1
  unfolding record_idempotency_receipt
  record_idempotency_receipt-Appends receipt =
      commit_delta-Appends _ default_delta (refl, refl, refl)

  pub append_job_event-Appends :
      (event : JobEvent) (planned : JobCatalog)
      → Appends host db (append_job_event host event planned db).1
  unfolding append_job_event bump_manifest
  append_job_event-Appends event planned =
      append-keeps (Appends host db) host whole _ _ db stays λ taken.
        lift-keeps (Appends host db) (host.write_manifest _) _ _
          (inr (_, (refl, refl, refl), taken, refl, refl))
          λ _ _.
            lift-keeps (Appends host db) (host.write_job_catalog_file planned) _ _
              (inr (_, (refl, refl, refl), taken, refl, refl))
              λ _ _. inr (_, (refl, refl, refl), taken, refl, refl)

  pub apply_schema-Appends :
      (schema : TableSchema) (receipt : Option IdempotencyReceipt)
      → Appends host db (apply_schema host schema receipt db).1
  unfolding apply_schema bump_manifest
  apply_schema-Appends schema receipt =
      lift-keeps (Appends host db) (validate_schema schema) _ db stays λ _ _.
        lift-keeps (Appends host db) (validate_schema_compatible schema db) _ db stays λ _ _.
          append-keeps (Appends host db) host whole _ _ db stays λ taken.
            lift-keeps (Appends host db) (host.write_manifest _) _ _
              (inr (_, (refl, refl, refl), taken, refl, refl))
              λ _ _. inr (_, (refl, refl, refl), taken, refl, refl)

module _ {V : Type 0} ⦃x : External V⦄ (host : Host V) (whole : IsWhole host) (db : TraceDb V) where
  pub write_mutation-Appends :
      (event : Text) (input : RecordInput V) (receipt : Option IdempotencyReceipt)
      → Appends host db (write_mutation event host input receipt db).1
  unfolding write_mutation
  write_mutation-Appends event input receipt =
      lift-keeps (Appends host db) (known_table input.table db.manifest.schemas) _ db
        (stays host whole db)
        λ schema _.
          lift-keeps (Appends host db) (plan_mutation_into db.store default_delta schema input _) _
            db (stays host whole db)
            λ d _. commit_delta-Appends host whole db _ d (refl, refl, refl)

  pub put-Appends :
      (input : RecordInput V) (receipt : Option IdempotencyReceipt)
      → Appends host db (put host input receipt db).1
  unfolding put
  put-Appends input receipt =
      lift-keeps (Appends host db) (known_table input.table db.manifest.schemas) _ db
        (stays host whole db)
        λ schema _.
          lift-keeps (Appends host db) (plan_replacement_into db.store default_delta schema input _)
            _ db (stays host whole db)
            λ d _. commit_delta-Appends host whole db _ d (refl, refl, refl)
