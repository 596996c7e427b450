-- ===== src/Engine/Reopen.antt =====
-- crates/tracedb-query/src/lib.rs: `open_with_options` on the log of a database that calls have left.
use mathlib.Core.List.{append-nil}
use tracedb.Base.{
  ◌+◌, ◌≤◌, Bool, true, false, none, some, List, [], ◌∷◌, ◌++◌, ◌≡◌, ◌∙◌, refl, arith, ok, err,
  Result, keep, ltb, is_some, if◌then◌else◌,
}
use tracedb.Core.Error.{TraceDbError}
use tracedb.Core.Types.{Epoch, TableSchema, External}
use tracedb.Log.Commit.{CommitRecord, IdempotencyReceipt}
use tracedb.Jobs.Catalog.{default_catalog, JobCatalog}
use tracedb.Store.Record.{RecordStore, default_store}
use tracedb.Store.PlanApply.{SameVersions}
use tracedb.Store.Replay.{apply_commits}
use tracedb.Store.Rebuild.{Leaves}
use tracedb.Engine.State.{TraceDb, TraceDbManifest, Host}
use tracedb.Engine.Open.{
  upsert_all, schema_changes_of, receipts_of, last_commit, is_behind, caught_up, assembled,
  replayed, starting_state, open_database,
}
use tracedb.Engine.Durable.{IsDurable, Counts}
use tracedb.Engine.Upserts.{upsert_all_behind}

module _ {V : Type 0} where
  keep-Counts :
      (e : Epoch) (log : List (CommitRecord V)) (hi : Epoch)
      → Counts e log hi
      → keep (λ c. ltb 0 c.epoch) log ≡ log
  keep-Counts e [] hi h = refl
  keep-Counts e (c ∷ log) hi h = ground (arith, keep-Counts (e + 1) log hi h.1, h.0)

  last_commit_some :
      (c : CommitRecord V) (log : List (CommitRecord V)) → is_some (last_commit (c ∷ log)) ≡ true
  last_commit_some c [] = refl
  last_commit_some c (d ∷ log) = last_commit_some d log

  -- The last commit has the last epoch.
  last_commit-Counts :
      (e : Epoch) (log : List (CommitRecord V)) (hi : Epoch)
      → Counts e log hi
      → (elim (last_commit log) [ none ↦ e | some c ↦ c.epoch ]) ≡ hi
  last_commit-Counts e [] hi h = h
  last_commit-Counts e (c ∷ []) hi h = h.0 ∙ h.1
  last_commit-Counts e (c ∷ (d ∷ log)) hi h =
      ground (arith, last_commit-Counts (e + 1) (d ∷ log) hi h.1, last_commit_some d log)

  caught_up-schemas :
      (manifest : TraceDbManifest) (log : List (CommitRecord V))
      → (caught_up manifest log).schemas ≡ manifest.schemas
  unfolding caught_up is_behind
  caught_up-schemas manifest log = ground arith

  caught_up-latest :
      (manifest : TraceDbManifest) (log : List (CommitRecord V)) (hi : Epoch)
      → Counts 0 log hi
      → manifest.latest_epoch ≤ hi
      → (caught_up manifest log).latest_epoch ≡ hi
  unfolding caught_up is_behind
  caught_up-latest manifest log hi h le = ground (arith, last_commit-Counts 0 log hi h)

-- What a database that is opened has in common with the one that left the log.
abbrev pub Restores : {V : Type 0} → TraceDb V → Result TraceDbError (TraceDb V) → Type 0
Restores db (ok opened) =
    SameVersions opened.store db.store
    × (opened.manifest.schemas ≡ db.manifest.schemas)
    × (opened.manifest.latest_epoch ≡ db.manifest.latest_epoch)
    × (opened.idempotency_receipts ≡ db.idempotency_receipts)
    × (opened.job_catalog ≡ db.job_catalog)
    × (opened.log ≡ db.log)
Restores db (err _) = ⊥

module _ {V : Type 0} ⦃x : External V⦄ where
  Leaves-ok :
      (r : Result TraceDbError Unit × RecordStore V) (live : RecordStore V)
      → Leaves r live
      → (r.0 ≡ ok tt) × SameVersions r.1 live
  Leaves-ok (ok tt, s) live h = (refl, h)
  Leaves-ok (err _, s) live h = elim h [ ]

  -- The commits applied to an empty store.
  abbrev rebuilt : TraceDb V → Result TraceDbError Unit × RecordStore V
  rebuilt db = apply_commits db.manifest.schemas db.log default_store

  rebuilt-Leaves : (db : TraceDb V) → IsDurable db → Leaves (rebuilt db) db.store
  rebuilt-Leaves db h = rw⁻¹ (append-nil db.manifest.schemas) (h.rebuilds [])

  assembled-eq :
      (start : TraceDb V) (log : List (CommitRecord V)) (catalog : JobCatalog)
      (r : Result TraceDbError Unit × RecordStore V) (receipts : List IdempotencyReceipt)
      → start.idempotency_receipts ++ receipts_of log ≡ receipts
      → r.0 ≡ ok tt
      → assembled start log (ok catalog) r
        ≡ ok (record {
          manifest = start.manifest;
          store = r.1;
          log = log;
          idempotency_receipts = receipts;
          job_catalog = catalog;
        })
  assembled-eq start log catalog (ok tt, s) receipts same h = rw same refl
  assembled-eq start log catalog (err _, s) receipts same h = cc

  -- The state that the log is replayed on where no checkpoint was taken.
  abbrev blank : TraceDbManifest → TraceDb V
  blank manifest = record {
    manifest = manifest;
    store = default_store;
    log = [];
    idempotency_receipts = [];
    job_catalog = default_catalog;
  }

  starting_state-blank :
      (host : Host V) (manifest : TraceDbManifest)
      → manifest.checkpoint_epoch ≡ 0
      → starting_state host manifest ≡ ok (blank manifest)
  unfolding starting_state
  starting_state-blank host manifest fresh = ground (arith, fresh)

  replayed-eq :
      (db : TraceDb V) (manifest : TraceDbManifest) (later : List TableSchema)
      → IsDurable db
      → manifest.schemas ++ later ≡ db.manifest.schemas
      → replayed (blank manifest) db.log
        ≡ ok (record {
          manifest = record manifest { schemas = db.manifest.schemas };
          store = (rebuilt db).1;
          log = db.log;
          idempotency_receipts = db.idempotency_receipts;
          job_catalog = db.job_catalog;
        })
  unfolding replayed
  replayed-eq db manifest later h behind =
      let upserted : upsert_all (schema_changes_of db.log) manifest.schemas ≡ db.manifest.schemas =
        rw (h.schemas, ← behind) (upsert_all_behind manifest.schemas later (rw behind h.names)) in
      rw (upserted, h.jobs)
        (assembled-eq (blank (record manifest { schemas = db.manifest.schemas })) db.log
          db.job_catalog (rebuilt db) db.idempotency_receipts h.receipts
          (Leaves-ok _ _ (rebuilt-Leaves db h)).0)

  manifest_written :
      (host : Host V) (manifest : TraceDbManifest) (b : Bool)
      → ((m : TraceDbManifest) → host.write_manifest m ≡ ok tt)
      → (if b then host.write_manifest manifest else ok tt) ≡ ok tt
  manifest_written host manifest true writes = writes manifest
  manifest_written host manifest false writes = refl

  -- Opening.
  pub open_database-Restores :
      (host : Host V) (db : TraceDb V) (manifest : TraceDbManifest) (later : List TableSchema)
      → IsDurable db
      → manifest.checkpoint_epoch ≡ 0
      → manifest.schemas ++ later ≡ db.manifest.schemas
      → manifest.latest_epoch ≤ db.manifest.latest_epoch
      → ((m : TraceDbManifest) → host.write_manifest m ≡ ok tt)
      → Restores db (open_database host manifest db.log)
  unfolding open_database
  open_database-Restores host db manifest later h fresh behind le writes =
      let kept : keep (λ c. ltb manifest.checkpoint_epoch c.epoch) db.log ≡ db.log =
        rw fresh (keep-Counts 0 db.log db.manifest.latest_epoch h.epochs) in
      rw (kept, starting_state-blank host manifest fresh)
        (rw (replayed-eq db manifest later h behind) (
          rw (manifest_written host _ _ writes) (
            (Leaves-ok _ _ (rebuilt-Leaves db h)).1,
            caught_up-schemas (record manifest { schemas = db.manifest.schemas }) db.log,
            caught_up-latest (record manifest { schemas = db.manifest.schemas }) db.log
                db.manifest.latest_epoch h.epochs le,
            refl,
            refl,
            refl,
          )))
