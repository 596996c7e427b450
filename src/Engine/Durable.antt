-- ===== src/Engine/Durable.antt =====
-- crates/tracedb-query/src/lib.rs: what makes the log of a database enough to rebuild its state.
use mathlib.Core.List.{append_assoc, append-nil}
use tracedb.Base.{◌+◌, none, List, [], ◌∷◌, ◌++◌, ◌≡◌, sym, ◌∙◌, ap, arith, Result, ok, err}
use tracedb.Base.Exec.{Exec, for_each, continue}
use tracedb.Core.Error.{TraceDbError}
use tracedb.Core.Types.{Epoch, TableSchema, External}
use tracedb.Log.Commit.{CommitRecord}
use tracedb.Jobs.Catalog.{JobEvent, JobCatalog, default_catalog, apply_event}
use tracedb.Jobs.Engine.{replay_from}
use tracedb.Store.Record.{RecordStore, default_store}
use tracedb.Store.PlanApply.{SameVersions}
use tracedb.Store.Replay.{find_table, apply_commit, apply_commits}
use tracedb.Store.Rebuild.{Leaves, dropped-Leaves}
use tracedb.Store.Planned.{HasSortedFeatures}
use tracedb.Engine.State.{TraceDb}
use tracedb.Engine.Open.{flat_map, schema_changes_of, receipts_of, job_events_of}

-- No name comes twice.
abbrev pub HasDistinctNames : List TableSchema → Type 0
HasDistinctNames [] = Unit
HasDistinctNames (s ∷ schemas) = (find_table s.name schemas ≡ none) × HasDistinctNames schemas

-- The epochs rise by one from `e`, up to `hi`.
abbrev pub Counts : {V : Type 0} → Epoch → List (CommitRecord V) → Epoch → Type 0
Counts e [] hi = e ≡ hi
Counts e (c ∷ commits) hi = (c.epoch ≡ e + 1) × Counts (e + 1) commits hi

flat_map-append :
    {V A : Type 0} (f : CommitRecord V → List A) (log : List (CommitRecord V)) (c : CommitRecord V)
    → flat_map f (log ++ c ∷ []) ≡ flat_map f log ++ f c
flat_map-append f [] c = append-nil (f c)
flat_map-append f (d ∷ log) c =
    rw (flat_map-append f log c) (sym (append_assoc (f d) (flat_map f log) (f c)))

Counts-append :
    {V : Type 0} (e : Epoch) (log : List (CommitRecord V)) (c : CommitRecord V) (hi : Epoch)
    → Counts e log hi
    → c.epoch ≡ hi + 1
    → Counts e (log ++ c ∷ []) (hi + 1)
Counts-append e [] c hi h last = (last ∙ ap (λ n. n + 1) (sym h), ap (λ n. n + 1) h)
Counts-append e (d ∷ log) c hi h last = (h.0, Counts-append (e + 1) log c hi h.1 last)

replay_from-append :
    (c d : JobCatalog) (xs ys : List JobEvent)
    → replay_from c xs ≡ ok d
    → replay_from c (xs ++ ys) ≡ replay_from d ys
unfolding replay_from
replay_from-append c d [] ys h = ground arith
replay_from-append c d (x ∷ xs) ys h =
    ground (arith, replay_from-append (apply_event x c).1 d xs ys)

for_each-after :
    {V A : Type 0} (r : Result TraceDbError Unit × RecordStore V)
    (step : A → Exec (RecordStore V) TraceDbError Unit) (ys : List A) (x : A)
    (mid live : RecordStore V)
    → Leaves (continue r.0 (λ _. for_each step ys) r.1) mid
    → ((st : RecordStore V) → SameVersions st mid → Leaves (step x st) live)
    → ((st : RecordStore V)
        → Leaves (for_each step ys st) mid
        → ((st' : RecordStore V) → SameVersions st' mid → Leaves (step x st') live)
        → Leaves (for_each step (ys ++ x ∷ []) st) live)
    → Leaves (continue r.0 (λ _. for_each step (ys ++ x ∷ [])) r.1) live
for_each-after (ok a, s) step ys x mid live h next rest = rest s h next
for_each-after (err _, s) step ys x mid live h next rest = elim h [ ]

for_each-append :
    {V A : Type 0} (step : A → Exec (RecordStore V) TraceDbError Unit) (xs : List A) (x : A)
    (s mid live : RecordStore V)
    → Leaves (for_each step xs s) mid
    → ((st : RecordStore V) → SameVersions st mid → Leaves (step x st) live)
    → Leaves (for_each step (xs ++ x ∷ []) s) live
for_each-append step [] x s mid live h next = dropped-Leaves (step x s) live (next s h)
for_each-append step (y ∷ ys) x s mid live h next =
    for_each-after (step y s) step ys x mid live h next
      (λ st. for_each-append step ys x st mid live)

module _ {V : Type 0} ⦃x : External V⦄ where
  -- The log rebuilds the state, also with schemas that are added later.
  pub record IsDurable (db : TraceDb V) : Type 0 where
    pub rebuilds :
        (more : List TableSchema)
        → Leaves (apply_commits (db.manifest.schemas ++ more) db.log default_store) db.store
    pub sorted : HasSortedFeatures db.store
    pub schemas : schema_changes_of db.log ≡ db.manifest.schemas
    pub names : HasDistinctNames db.manifest.schemas
    pub receipts : receipts_of db.log ≡ db.idempotency_receipts
    pub jobs : replay_from default_catalog (job_events_of db.log) ≡ ok db.job_catalog
    pub epochs : Counts 0 db.log db.manifest.latest_epoch

  -- A commit that is appended to the log and has changed the state as its replay does.
  pub append-IsDurable :
      (db after : TraceDb V) (c : CommitRecord V)
      → IsDurable db
      → after.log ≡ db.log ++ c ∷ []
      → after.manifest.schemas ≡ db.manifest.schemas ++ c.schema_changes
      → HasDistinctNames after.manifest.schemas
      → after.idempotency_receipts ≡ db.idempotency_receipts ++ c.idempotency_receipts
      → replay_from db.job_catalog c.job_events ≡ ok after.job_catalog
      → c.epoch ≡ db.manifest.latest_epoch + 1
      → after.manifest.latest_epoch ≡ db.manifest.latest_epoch + 1
      → HasSortedFeatures after.store
      → ((more : List TableSchema) (st : RecordStore V)
          → SameVersions st db.store
          → Leaves (apply_commit (after.manifest.schemas ++ more) c st) after.store)
      → IsDurable after
  unfolding apply_commits
  append-IsDurable db after c h log schemas names receipts jobs epoch latest sorted replay =
      record {
        rebuilds = λ more. rw log (
            for_each-append (apply_commit (after.manifest.schemas ++ more)) db.log c default_store
              db.store after.store
              (rw (schemas, append_assoc db.manifest.schemas c.schema_changes more)
                (h.rebuilds (c.schema_changes ++ more)))
              (replay more));
        sorted = sorted;
        schemas =
            rw (log, flat_map-append (λ c. c.schema_changes) db.log c, h.schemas) (sym schemas);
        names = names;
        receipts =
            rw (log, flat_map-append (λ c. c.idempotency_receipts) db.log c, h.receipts)
              (sym receipts);
        jobs =
            rw
              (
                log,
                flat_map-append (λ c. c.job_events) db.log c,
                replay_from-append default_catalog db.job_catalog _ _ h.jobs,
              )
              jobs;
        epochs = rw (log, latest) (Counts-append 0 db.log c _ h.epochs epoch);
      }
