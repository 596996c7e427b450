-- ===== src/Engine/CrashTests.antt =====
-- A database that records receipts in a file, with a codec of the commits that do so.
use tracedb.Base.{
  ◌-◌, ◌==◌, ◌&&◌, ◌++◌, codes, text_eq, is_empty, is_none, Bool, false, none, List, [], ◌∷◌,
  if◌then◌else◌, Result, ok, err, ℕ,
}
use tracedb.Core.Error.{TraceDbError, json, manifest_corruption}
use tracedb.Store.Sample.{Value, values}
use tracedb.Log.Commit.{
  CommitRecord, Codec, IdempotencyReceipt, ModuleCommitEvent, empty_commit, zero_checksum,
}
use tracedb.Log.Frame.{CommitFrame, assemble_commit_frame}
use tracedb.Engine.State.{TraceDb, Host}
use tracedb.Engine.Calls.{Call, recording, created, call_all}
use tracedb.Engine.OnFile.{on_file}

abbrev stamp : IdempotencyReceipt
stamp = record {
  method = [];
  path = [];
  key = [];
  body_hash = [];
  actor_tenant_id = [];
  database_id = [];
  branch_id = [];
  token_identity = [];
  response = [];
}

abbrev are_stamps : List IdempotencyReceipt → Bool
are_stamps (r ∷ []) =
    is_empty r.method
    && (is_empty r.path
        && (is_empty r.key
            && (is_empty r.body_hash
                && (is_empty r.actor_tenant_id
                    && (is_empty r.database_id
                        && (is_empty r.branch_id
                            && (is_empty r.token_identity && is_empty r.response)))))))
are_stamps _ = false

abbrev event : ModuleCommitEvent
event = record { module_id = codes "tracedb-kernel"; event = codes "idempotency.receipt" }

abbrev are_events : List ModuleCommitEvent → Bool
are_events (e ∷ []) = text_eq e.module_id event.module_id && text_eq e.event event.event
are_events _ = false

-- The commit of an epoch that records the receipt, after a commit with the hash.
abbrev stamped : ℕ → List ℕ → CommitRecord Value
stamped epoch hash = record (empty_commit {V = Value} epoch epoch) {
  database_id = codes "db";
  previous_commit_hash = hash;
  schema_epoch = epoch - 1;
  policy_epoch = epoch - 1;
  module_events = event ∷ [];
  idempotency_receipts = stamp ∷ [];
}

abbrev fits : CommitRecord Value → Bool
fits c =
    text_eq c.database_id (codes "db")
    && (text_eq c.branch_id (codes "main")
        && (c.transaction_id == c.epoch
            && (c.parent_epoch == c.epoch - 1
                && (is_none c.idempotency_key
                    && (c.schema_epoch == c.epoch - 1
                        && (c.policy_epoch == c.epoch - 1
                            && (is_empty c.schema_changes
                                && (is_empty c.replacements
                                    && (is_empty c.mutations
                                        && (is_empty c.deletions
                                            && (is_empty c.feature_invalidations
                                                && (are_events c.module_events
                                                    && (are_stamps c.idempotency_receipts
                                                        && (is_empty c.job_events
                                                            && text_eq c.commit_marker
                                                            (codes "COMMITTED")))))))))))))))

abbrev decode : List ℕ → Result TraceDbError (CommitRecord Value)
decode (_ ∷ epoch ∷ hash) = ok (stamped epoch hash)
decode _ = err json

abbrev codec : Codec Value
codec = record {
  to_vec = λ c. if fits c then ok (0 ∷ c.epoch ∷ c.previous_commit_hash) else err json;
  from_slice = decode;
  checksum_bytes = λ bytes. zero_checksum;
}

abbrev host : Host Value
host = record {
  append_commit = λ commit log. (ok tt, log ++ commit ∷ []);
  read_checkpoint_file = λ epoch. err (manifest_corruption []);
  write_manifest = λ manifest. ok tt;
  write_job_catalog_file = λ catalog. ok tt;
  epoch_response = λ epoch. epoch ∷ [];
  batch_response = λ epoch n. epoch ∷ n ∷ [];
  deleted_response = λ epoch. epoch ∷ [];
}

abbrev calls : List (Call Value)
calls = recording stamp ∷ recording stamp ∷ []

abbrev start : TraceDb Value
start = created (codes "db")

abbrev after : TraceDb Value
after = call_all (on_file codec none host) calls start

abbrev third_frame : CommitFrame
third_frame = record {
  epoch = 3;
  payload_checksum = zero_checksum;
  payload_bytes = 34;
  frame_bytes = 126;
  frame = assemble_commit_frame 3 zero_checksum zero_checksum (0 ∷ 3 ∷ zero_checksum);
}
