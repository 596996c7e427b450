-- ===== src/Engine/Forget.antt =====
-- crates/tracedb-query/src/lib.rs: opening reads nothing of the hash that chains a commit to the one
-- before it.
use tracedb.Base.{
  Text, ◌++◌, List, [], ◌∷◌, ◌≡◌, refl, map, keep, ltb, Bool-cases, inl, inr, Result, ok, err,
  ◌>>=◌, ◌>>◌, if◌then◌else◌,
}
use mathlib.Core.Path.{fun_ext}
use tracedb.Base.Map.{TextSet}
use tracedb.Base.Exec.{continue}
use tracedb.Core.Error.{TraceDbError}
use tracedb.Core.Types.{Epoch, TableSchema, FeatureInvalidation, External}
use tracedb.Jobs.Catalog.{JobCatalog}
use tracedb.Jobs.Engine.{replay_from}
use tracedb.Log.Commit.{CommitRecord}
use tracedb.Log.Recovery.{forget_hash}
use tracedb.Store.Record.{RecordStore}
use tracedb.Store.Replay.{
  commit_tenants, resolve_among, resolve_legacy_feature_invalidation, replay_invalidation,
  apply_commit, apply_commits,
}
use tracedb.Engine.State.{TraceDb, TraceDbManifest, Host}
use tracedb.Engine.Open.{
  flat_map, schema_changes_of, job_events_of, upsert_all, is_behind, caught_up, assembled, replayed,
  starting_state, open_database,
}

module _ {V : Type 0} where
  keep-forget_hash :
      (epoch : Epoch) (commits : List (CommitRecord V))
      → keep (λ c. ltb epoch c.epoch) (map forget_hash commits)
        ≡ map forget_hash (keep (λ c. ltb epoch c.epoch) commits)
  keep-forget_hash epoch [] = refl
  keep-forget_hash epoch (c ∷ commits) = elim (Bool-cases (ltb epoch c.epoch)) [
    | inl later ↦ rw (later, keep-forget_hash epoch commits) refl
    | inr earlier ↦ rw (earlier, keep-forget_hash epoch commits) refl
  ]

  flat_map-forget_hash :
      {A : Type 0} (f : CommitRecord V → List A)
      → ((c : CommitRecord V) → f (forget_hash c) ≡ f c)
      → (commits : List (CommitRecord V))
      → flat_map f (map forget_hash commits) ≡ flat_map f commits
  flat_map-forget_hash f same [] = refl
  flat_map-forget_hash f same (c ∷ commits) = rw (same c, flat_map-forget_hash f same commits) refl

  caught_up-forget_hash :
      (manifest : TraceDbManifest) (commits : List (CommitRecord V))
      → caught_up manifest (map forget_hash commits) ≡ caught_up manifest commits
  unfolding caught_up is_behind
  caught_up-forget_hash manifest [] = refl
  caught_up-forget_hash manifest (c ∷ []) = refl
  caught_up-forget_hash manifest (c ∷ d ∷ commits) = caught_up-forget_hash manifest (d ∷ commits)

  is_behind-forget_hash :
      (manifest : TraceDbManifest) (commits : List (CommitRecord V))
      → is_behind manifest (map forget_hash commits) ≡ is_behind manifest commits
  unfolding is_behind
  is_behind-forget_hash manifest [] = refl
  is_behind-forget_hash manifest (c ∷ []) = refl
  is_behind-forget_hash manifest (c ∷ d ∷ commits) = is_behind-forget_hash manifest (d ∷ commits)

  -- The log of what was opened, each commit but for its hash.
  abbrev pub relogged : Result TraceDbError (TraceDb V) → Result TraceDbError (TraceDb V)
  relogged (ok db) = ok (record db { log = map forget_hash db.log })
  relogged (err e) = err e

module _ {V : Type 0} ⦃x : External V⦄ where
  resolve_among-forget_hash :
      (i : FeatureInvalidation) (c : CommitRecord V) (s : RecordStore V) (tenants : TextSet)
      → resolve_among i (forget_hash c) s tenants ≡ resolve_among i c s tenants
  resolve_among-forget_hash i c s [] = refl
  resolve_among-forget_hash i c s (_ ∷ []) = refl
  resolve_among-forget_hash i c s (_ ∷ (_ ∷ _)) = refl

  replay_invalidation-forget_hash :
      (c : CommitRecord V) → replay_invalidation (forget_hash c) ≡ replay_invalidation c
  unfolding replay_invalidation resolve_legacy_feature_invalidation
  replay_invalidation-forget_hash c = fun_ext λ i. fun_ext λ s.
      rw (resolve_among-forget_hash i c s (commit_tenants i (c.mutations ++ c.replacements))) refl

  apply_commit-forget_hash :
      (schemas : List TableSchema) (c : CommitRecord V)
      → apply_commit schemas (forget_hash c) ≡ apply_commit schemas c
  unfolding apply_commit
  apply_commit-forget_hash schemas c = rw (replay_invalidation-forget_hash c) refl

  apply_commits-forget_hash :
      (schemas : List TableSchema) (commits : List (CommitRecord V)) (s : RecordStore V)
      → apply_commits schemas (map forget_hash commits) s ≡ apply_commits schemas commits s
  unfolding apply_commits
  apply_commits-forget_hash schemas [] s = refl
  apply_commits-forget_hash schemas (c ∷ commits) s =
      rw (apply_commit-forget_hash schemas c)
        (after_first (apply_commit schemas c s) (apply_commits-forget_hash schemas commits))
    where
      after_first :
          (r : Result TraceDbError Unit × RecordStore V)
          → ((left : RecordStore V)
              → apply_commits schemas (map forget_hash commits) left
                ≡ apply_commits schemas commits left)
          → continue r.0 (λ _. apply_commits schemas (map forget_hash commits)) r.1
            ≡ continue r.0 (λ _. apply_commits schemas commits) r.1
      after_first (ok _, left) same = same left
      after_first (err e, left) same = refl

  assembled-forget_hash :
      (start : TraceDb V) (commits : List (CommitRecord V)) (jobs : Result Text JobCatalog)
      (r : Result TraceDbError Unit × RecordStore V)
      → assembled start (map forget_hash commits) jobs r ≡ relogged (assembled start commits jobs r)
  assembled-forget_hash start commits (err e) (rebuilt, s) = refl
  assembled-forget_hash start commits (ok catalog) (err e, s) = refl
  assembled-forget_hash start commits (ok catalog) (ok _, s) =
      rw (flat_map-forget_hash (λ c. c.idempotency_receipts) (λ c. refl) commits) refl

  replayed-forget_hash :
      (start : TraceDb V) (commits : List (CommitRecord V))
      → replayed start (map forget_hash commits) ≡ relogged (replayed start commits)
  unfolding replayed
  replayed-forget_hash start commits =
      let changes = flat_map-forget_hash (λ c. c.schema_changes) (λ c. refl) commits in
      let events = flat_map-forget_hash (λ c. c.job_events) (λ c. refl) commits in
      let schemas = upsert_all (schema_changes_of commits) start.manifest.schemas in
      rw (changes, events, apply_commits-forget_hash schemas commits start.store)
        (assembled-forget_hash
          (record start { manifest = record start.manifest { schemas = schemas } }) commits
          (replay_from start.job_catalog (job_events_of commits))
          (apply_commits schemas commits start.store))

  -- The write of the manifest that ends the opening.
  abbrev written_back :
      Host V
      → List (CommitRecord V)
      → Result TraceDbError (TraceDb V)
      → Result TraceDbError (TraceDb V)
  written_back host commits r = r >>= λ db.
      let after = caught_up db.manifest commits in
      (if is_behind db.manifest commits then host.write_manifest after else ok tt)
      >> ok (record db { manifest = after })

  relogged-after :
      (w : Result TraceDbError Unit) (db : TraceDb V)
      → (w >> relogged (ok db)) ≡ relogged (w >> ok db)
  relogged-after (ok _) db = refl
  relogged-after (err e) db = refl

  written_back-forget_hash :
      (host : Host V) (commits : List (CommitRecord V)) (r : Result TraceDbError (TraceDb V))
      → written_back host (map forget_hash commits) (relogged r)
        ≡ relogged (written_back host commits r)
  written_back-forget_hash host commits (err e) = refl
  written_back-forget_hash host commits (ok db) =
      let after = caught_up db.manifest commits in
      rw (is_behind-forget_hash db.manifest commits, caught_up-forget_hash db.manifest commits)
        (relogged-after (if is_behind db.manifest commits then host.write_manifest after else ok tt)
          (record db { manifest = after }))

  replayed_on-forget_hash :
      (host : Host V) (commits : List (CommitRecord V)) (r : Result TraceDbError (TraceDb V))
      → (r >>= λ start.
          written_back host (map forget_hash commits) (replayed start (map forget_hash commits)))
        ≡ relogged (r >>= λ start. written_back host commits (replayed start commits))
  replayed_on-forget_hash host commits (err e) = refl
  replayed_on-forget_hash host commits (ok start) =
      rw (replayed-forget_hash start commits)
        (written_back-forget_hash host commits (replayed start commits))

  -- Opening commits whose hashes are left out is opening them, but for the hashes in the log.
  pub open_database-forget_hash :
      (host : Host V) (manifest : TraceDbManifest) (commits : List (CommitRecord V))
      → open_database host manifest (map forget_hash commits)
        ≡ relogged (open_database host manifest commits)
  unfolding open_database
  open_database-forget_hash host manifest commits =
      let kept = keep (λ c. ltb manifest.checkpoint_epoch c.epoch) commits in
      rw (keep-forget_hash manifest.checkpoint_epoch commits)
        (replayed_on-forget_hash host kept (starting_state host manifest))
