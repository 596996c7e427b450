-- ===== src/Engine/Calls.antt =====
-- crates/tracedb-query/src/lib.rs: sequences of calls that write, and the opening after them.
use tracedb.Base.{
  ◌+◌, ◌<◌, ◌≤◌, ◌^◌, ◌%◌, sym, ap, ◌∙◌, inl, inr, Text, false, Option, none, List, [], ◌∷◌, ◌++◌,
  ◌≡◌, refl, is_empty, trim, ok, arith, length,
}
use mathlib.Core.List.{append_assoc, append-nil}
use tracedb.Base.Map
use tracedb.Core.Types.{TableSchema, RecordInput, RecordDeletion, FeatureInvalidation, External}
use tracedb.Log.Commit.{CommitRecord, IdempotencyReceipt}
use tracedb.Jobs.Catalog.{JobEvent, JobCatalog, apply_event, default_catalog}
use tracedb.Jobs.Engine.{replay_from}
use tracedb.Store.Record.{default_store, versions_at}
use tracedb.Store.Replay.{find_table, apply_commits}
use tracedb.Engine.State.{empty_manifest, TraceDb, Host}
use tracedb.Engine.Append.{IsWhole}
use tracedb.Engine.Writes.{
  insert, patch, put, delete, set_feature_status, record_idempotency_receipt, append_job_event,
  apply_schema,
}
use tracedb.Engine.Durable.{IsDurable}
use tracedb.Engine.Steps.{
  write_mutation-IsDurable, put-IsDurable, delete-IsDurable, set_feature_status-IsDurable,
  record_idempotency_receipt-IsDurable,
}
use tracedb.Engine.Appends.{
  Appends, Appends-latest, write_mutation-Appends, put-Appends, delete-Appends,
  set_feature_status-Appends, record_idempotency_receipt-Appends, append_job_event-Appends,
  apply_schema-Appends,
}
use tracedb.Engine.Recovery.{append_job_event-IsDurable, apply_schema-IsDurable}

-- One call of a method that commits.
pub data Call (V : Type 0) : Type 0 where
  inserting patching putting : RecordInput V → Option IdempotencyReceipt → Call V
  deleting : RecordDeletion → Option IdempotencyReceipt → Call V
  setting_status : FeatureInvalidation → Call V
  recording : IdempotencyReceipt → Call V
  logging : JobEvent → JobCatalog → Call V
  applying : TableSchema → Option IdempotencyReceipt → Call V

module _ {V : Type 0} where
  -- The state of a database that is made, before the first commit.
  unfoldable pub created : Text → TraceDb V
  created database_id = record {
    manifest = empty_manifest database_id;
    store = default_store;
    log = [];
    idempotency_receipts = [];
    job_catalog = default_catalog;
  }

  -- A tenant that is written is not blank, a schema is of a new table, and the plan of a job is what
  -- its event does.
  abbrev pub IsCallOf : TraceDb V → Call V → Type 0
  IsCallOf db (inserting input _) = is_empty (trim input.tenant_id) ≡ false
  IsCallOf db (patching input _) = is_empty (trim input.tenant_id) ≡ false
  IsCallOf db (putting input _) = is_empty (trim input.tenant_id) ≡ false
  IsCallOf db (deleting _ _) = Unit
  IsCallOf db (setting_status _) = Unit
  IsCallOf db (recording _) = Unit
  IsCallOf db (logging event planned) = apply_event event db.job_catalog ≡ (ok tt, planned)
  IsCallOf db (applying schema _) = find_table schema.name db.manifest.schemas ≡ none

module _ {V : Type 0} ⦃x : External V⦄ where
  -- The state that a call leaves, also when it fails.
  unfoldable pub call : Host V → Call V → TraceDb V → TraceDb V
  call host (inserting input receipt) db = (insert host input receipt db).1
  call host (patching input receipt) db = (patch host input receipt db).1
  call host (putting input receipt) db = (put host input receipt db).1
  call host (deleting deletion receipt) db = (delete host deletion receipt db).1
  call host (setting_status i) db = (set_feature_status host i db).1
  call host (recording receipt) db = (record_idempotency_receipt host receipt db).1
  call host (logging event planned) db = (append_job_event host event planned db).1
  call host (applying schema receipt) db = (apply_schema host schema receipt db).1

  unfoldable pub call_all : Host V → List (Call V) → TraceDb V → TraceDb V
  call_all host [] db = db
  call_all host (c ∷ calls) db = call_all host calls (call host c db)

  abbrev pub AreCallsOf : Host V → TraceDb V → List (Call V) → Type 0
  AreCallsOf host db [] = Unit
  AreCallsOf host db (c ∷ calls) = IsCallOf db c × AreCallsOf host (call host c db) calls

  pub created-IsDurable : (database_id : Text) → IsDurable {V = V} (created database_id)
  unfolding created apply_commits replay_from versions_at Map.get
  created-IsDurable database_id = record {
    rebuilds = λ more j. refl;
    sorted = record { at_key = λ k. tt };
    schemas = refl;
    names = tt;
    receipts = refl;
    jobs = refl;
    epochs = refl;
  }

  call-IsDurable :
      (host : Host V) (whole : IsWhole host) (c : Call V) (db : TraceDb V)
      → IsDurable db
      → IsCallOf db c
      → db.manifest.latest_epoch + 1 < 2 ^ 64
      → IsDurable (call host c db)
  unfolding call insert patch
  call-IsDurable host whole (inserting input receipt) db h named room =
      write_mutation-IsDurable host whole db h room _ input receipt named
  call-IsDurable host whole (patching input receipt) db h named room =
      write_mutation-IsDurable host whole db h room _ input receipt named
  call-IsDurable host whole (putting input receipt) db h named room =
      put-IsDurable host whole db h room input receipt named
  call-IsDurable host whole (deleting deletion receipt) db h _ room =
      delete-IsDurable host whole db h room deletion receipt
  call-IsDurable host whole (setting_status i) db h _ room =
      set_feature_status-IsDurable host whole db h room i
  call-IsDurable host whole (recording receipt) db h _ room =
      record_idempotency_receipt-IsDurable host whole db h room receipt
  call-IsDurable host whole (logging event planned) db h applied room =
      append_job_event-IsDurable host whole db h room event planned applied
  call-IsDurable host whole (applying schema receipt) db h new room =
      apply_schema-IsDurable host whole db h room schema receipt new

  pub call-Appends :
      (host : Host V) (whole : IsWhole host) (c : Call V) (db : TraceDb V)
      → Appends host db (call host c db)
  unfolding call insert patch
  call-Appends host whole (inserting input receipt) db =
      write_mutation-Appends host whole db _ input receipt
  call-Appends host whole (patching input receipt) db =
      write_mutation-Appends host whole db _ input receipt
  call-Appends host whole (putting input receipt) db = put-Appends host whole db input receipt
  call-Appends host whole (deleting deletion receipt) db =
      delete-Appends host whole db deletion receipt
  call-Appends host whole (setting_status i) db = set_feature_status-Appends host whole db i
  call-Appends host whole (recording receipt) db =
      record_idempotency_receipt-Appends host whole db receipt
  call-Appends host whole (logging event planned) db =
      append_job_event-Appends host whole db event planned
  call-Appends host whole (applying schema receipt) db =
      apply_schema-Appends host whole db schema receipt

  -- Calls on a database whose latest epoch is a `u64` append commits to its log, one a call at most,
  -- and move the epoch by exactly their number, wrapping at the end of the range, whichever of the calls
  -- fail. Each append writes a frame that scans to its commit, or fails and
  -- writes nothing.
  pub call_all-latest :
      (host : Host V) (whole : IsWhole host) (calls : List (Call V)) (db : TraceDb V)
      → db.manifest.latest_epoch < 2 ^ 64
      → (appended : List (CommitRecord V)) × ((call_all host calls db).log ≡ db.log ++ appended)
        × (length appended ≤ length calls)
        × ((call_all host calls db).manifest.latest_epoch
            ≡ (db.manifest.latest_epoch + length appended) % 2 ^ 64)
  unfolding call_all
  call_all-latest host whole [] db fits = ([], sym (append-nil db.log), omega arith, omega arith)
  call_all-latest host whole (c ∷ calls) db fits = elim (call-Appends host whole c db) [
    | inl (same, still) ↦
        let (appended, log, few, moved) =
          call_all-latest host whole calls (call host c db) (omega arith) in
        (appended, log ∙ ap (λ l. l ++ appended) same, omega arith, omega arith)
    | inr (commit, (_, next, _), _, grown, now) ↦
        let (appended, log, few, moved) =
          call_all-latest host whole calls (call host c db) (omega arith) in
        (
          commit ∷ appended,
          log ∙ (ap (λ l. l ++ appended) grown ∙ append_assoc db.log (commit ∷ []) appended),
          omega arith,
          omega arith,
        )
  ]

  pub call_all-IsDurable :
      (host : Host V) (whole : IsWhole host) (calls : List (Call V)) (db : TraceDb V)
      → IsDurable db
      → AreCallsOf host db calls
      → db.manifest.latest_epoch + length calls < 2 ^ 64
      → IsDurable (call_all host calls db)
  unfolding call_all
  call_all-IsDurable host whole [] db h _ room = h
  call_all-IsDurable host whole (c ∷ calls) db h (fits, rest) room =
      let moved = Appends-latest host db (call host c db) (call-Appends host whole c db) in
      call_all-IsDurable host whole calls (call host c db)
        (call-IsDurable host whole c db h fits (omega arith)) rest (omega arith)
