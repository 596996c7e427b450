-- ===== src/Jobs/Job.antt =====
-- crates/tracedb-jobs/src/lib.rs: jobs, their kinds and statuses, and the lease of one job.
use Prim.Native.Nat.{max}
use tracedb.Base.{
  ℕ, ◌+◌, ◌-◌, ◌%◌, ◌^◌, min, Text, codes, decimal, Bool, true, false, Option, none, some, List,
  ◌++◌, leb, ◌==◌,
}

pub data JobKind : Type 0 where
  generate_embedding regenerate_embedding build_text_index build_vector_index : JobKind
  compact_segment vacuum_artifacts reindex_table validate_policy refresh_summary : JobKind
  feature_refresh export_subject purge_subject backup_database restore_verification : JobKind
  verify_database : JobKind

pub data JobStatus : Type 0 where
  queued leased running committing_result succeeded failed_retryable failed_permanent : JobStatus
  canceled dead_lettered : JobStatus

-- `WorkerId(String)`.
abbrev pub WorkerId : Type 0
WorkerId = Text

-- `attempts` and `max_attempts` are `u32`, the times `u64`.
pub record TraceJob : Type 0 where
  pub job_id : Text
  pub kind : JobKind
  pub target : Text
  pub idempotency_key : Text
  pub lease_owner : Option WorkerId
  pub attempts : ℕ
  pub max_attempts : ℕ
  pub status : JobStatus
  pub last_error : Option Text
  pub lease_token : Option Text
  pub lease_expires_at_ms : Option ℕ
  pub next_attempt_after_ms : Option ℕ
  pub artifact_path : Option Text
  pub artifact_checksum : Option (List ℕ)

unfoldable pub kind_name : JobKind → Text
kind_name JobKind.generate_embedding = codes "generate_embedding"
kind_name JobKind.regenerate_embedding = codes "regenerate_embedding"
kind_name JobKind.build_text_index = codes "build_text_index"
kind_name JobKind.build_vector_index = codes "build_vector_index"
kind_name JobKind.compact_segment = codes "compact_segment"
kind_name JobKind.vacuum_artifacts = codes "vacuum_artifacts"
kind_name JobKind.reindex_table = codes "reindex_table"
kind_name JobKind.validate_policy = codes "validate_policy"
kind_name JobKind.refresh_summary = codes "refresh_summary"
kind_name JobKind.feature_refresh = codes "feature_refresh"
kind_name JobKind.export_subject = codes "export_subject"
kind_name JobKind.purge_subject = codes "purge_subject"
kind_name JobKind.backup_database = codes "backup_database"
kind_name JobKind.restore_verification = codes "restore_verification"
kind_name JobKind.verify_database = codes "verify_database"

-- The place of a kind in its enum, by which `==` compares.
abbrev pub kind_index : JobKind → ℕ
kind_index JobKind.generate_embedding = 0
kind_index JobKind.regenerate_embedding = 1
kind_index JobKind.build_text_index = 2
kind_index JobKind.build_vector_index = 3
kind_index JobKind.compact_segment = 4
kind_index JobKind.vacuum_artifacts = 5
kind_index JobKind.reindex_table = 6
kind_index JobKind.validate_policy = 7
kind_index JobKind.refresh_summary = 8
kind_index JobKind.feature_refresh = 9
kind_index JobKind.export_subject = 10
kind_index JobKind.purge_subject = 11
kind_index JobKind.backup_database = 12
kind_index JobKind.restore_verification = 13
kind_index JobKind.verify_database = 14

abbrev pub kind_eq : JobKind → JobKind → Bool
kind_eq a b = kind_index a == kind_index b

abbrev pub status_index : JobStatus → ℕ
status_index JobStatus.queued = 0
status_index JobStatus.leased = 1
status_index JobStatus.running = 2
status_index JobStatus.committing_result = 3
status_index JobStatus.succeeded = 4
status_index JobStatus.failed_retryable = 5
status_index JobStatus.failed_permanent = 6
status_index JobStatus.canceled = 7
status_index JobStatus.dead_lettered = 8

abbrev pub status_eq : JobStatus → JobStatus → Bool
status_eq a b = status_index a == status_index b

-- `format!("job:{}:{idempotency_key}", kind_name(&kind))`.
unfoldable pub job_id_for : JobKind → Text → Text
unfolding kind_name
job_id_for kind idempotency_key = codes "job:" ++ (kind_name kind ++ (codes ":" ++ idempotency_key))

unfoldable pub new_job : JobKind → Text → Text → TraceJob
new_job kind target idempotency_key = record {
  job_id = job_id_for kind idempotency_key;
  kind = kind;
  target = target;
  idempotency_key = idempotency_key;
  lease_owner = none;
  attempts = 0;
  max_attempts = 3;
  status = JobStatus.queued;
  last_error = none;
  lease_token = none;
  lease_expires_at_ms = none;
  next_attempt_after_ms = none;
  artifact_path = none;
  artifact_checksum = none;
}

-- `u64::saturating_add`.
abbrev pub saturating_add : ℕ → ℕ → ℕ
saturating_add a b = min (a + b) (2 ^ 64 - 1)

-- `+ 1` on a `u32`, which wraps in a release build.
abbrev pub next_attempt : ℕ → ℕ
next_attempt attempts = (attempts + 1) % 2 ^ 32

-- `format!("lease:{}:{next_attempt}", job_id)`.
unfoldable pub lease_token_for : Text → ℕ → Text
lease_token_for job_id attempt = codes "lease:" ++ (job_id ++ (codes ":" ++ decimal attempt))

abbrev pub lease_expiry : ℕ → ℕ → ℕ
lease_expiry now_ms lease_ms = saturating_add now_ms (max lease_ms 1)

unfoldable pub lease_at : TraceJob → WorkerId → ℕ → ℕ → TraceJob
lease_at job worker_id now_ms lease_ms = record job {
  lease_token = some (lease_token_for job.job_id (next_attempt job.attempts));
  lease_expires_at_ms = some (lease_expiry now_ms lease_ms);
  lease_owner = some worker_id;
  attempts = next_attempt job.attempts;
  status = JobStatus.leased;
  next_attempt_after_ms = none;
}

abbrev leasable_in : JobStatus → TraceJob → ℕ → Bool
leasable_in JobStatus.queued job now_ms = true
leasable_in JobStatus.failed_retryable job now_ms = elim job.next_attempt_after_ms [
  | none ↦ true
  | some ready_at ↦ leb ready_at now_ms
]
leasable_in JobStatus.leased job now_ms = elim job.lease_expires_at_ms [
  | none ↦ false
  | some expires_at ↦ leb expires_at now_ms
]
leasable_in JobStatus.running job now_ms = elim job.lease_expires_at_ms [
  | none ↦ false
  | some expires_at ↦ leb expires_at now_ms
]
leasable_in _ job now_ms = false

unfoldable pub job_is_leasable : TraceJob → ℕ → Bool
job_is_leasable job now_ms = leasable_in job.status job now_ms
