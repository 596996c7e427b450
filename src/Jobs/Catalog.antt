-- ===== src/Jobs/Catalog.antt =====
-- crates/tracedb-jobs/src/lib.rs: `JobCatalog`, its operations and the replay of its events.
use tracedb.Base.{
  ℕ, Text, codes, text_eq, Bool, true, false, ◌&&◌, Option, none, some, [], ◌∷◌, ◌++◌, leb,
  if◌then◌else◌, keep, length, unwrap_or, Result, ok, err,
}
use tracedb.Base.Exec.{Exec, pure, lift, gets, ◌>>=◌, ◌>>◌}
use tracedb.Base.Map
use tracedb.Base.Map.{Map}
use tracedb.Jobs.Job.{
  TraceJob, JobKind, JobStatus, WorkerId, new_job, lease_at, lease_expiry, next_attempt,
  job_is_leasable, kind_eq, status_eq,
}

pub data JobEvent : Type 0 where
  enqueued : TraceJob → JobEvent
  leased : Text → WorkerId → Text → ℕ → JobEvent
  heartbeat : Text → Text → ℕ → JobEvent
  completed : Text → Text → JobEvent
  failed : Text → Option Text → Text → Bool → ℕ → JobEvent

pub record JobCatalog : Type 0 where
  pub jobs : Map TraceJob

abbrev pub default_catalog : JobCatalog
default_catalog = record { jobs = Map.empty }

abbrev pub Action : Type 0 → Type 0
Action A = Exec JobCatalog Text A

abbrev pub set_job : Text → TraceJob → JobCatalog → JobCatalog
set_job key job c = record { jobs = Map.insert key job c.jobs }

-- The first key, in order, of an entry that passes.
unfoldable pub find_key : (TraceJob → Bool) → Map TraceJob → Option Text
find_key p [] = none
find_key p ((key, job) ∷ m) = if p job then some key else find_key p m

-- `entry(key).or_insert(job)`.
unfoldable pub or_insert : Text → TraceJob → JobCatalog → JobCatalog
or_insert key job c = elim (Map.get key c.jobs) [ some existing ↦ c | none ↦ set_job key job c ]

unfoldable pub enqueue : JobKind → Text → Text → Action TraceJob
unfolding or_insert
enqueue kind target idempotency_key c =
    let job = new_job kind target idempotency_key in
    let c' = or_insert idempotency_key job c in
    (ok (unwrap_or (Map.get idempotency_key c'.jobs) job), c')

unfoldable pub key_for_job_id : JobCatalog → Text → Option Text
unfolding find_key
key_for_job_id c job_id = find_key (λ job. text_eq job.job_id job_id) c.jobs

abbrev pub unknown_job : Text → Text
unknown_job job_id = codes "unknown job " ++ job_id

abbrev pub invalid_lease_token : Text → Text
invalid_lease_token job_id = codes "invalid lease token for " ++ job_id

-- `job.lease_token.as_deref() != Some(lease_token)` where a token is given.
abbrev pub token_fits : Option Text → Option Text → Bool
token_fits held none = true
token_fits none (some given) = false
token_fits (some token) (some given) = text_eq token given

-- The key and the value of the job that the reference of `job_mut_for_token` points to. A key that
-- was found is in the map, so the error of the second lookup (`expect`) is not met.
unfoldable pub job_for_token : JobCatalog → Text → Option Text → Result Text (Text × TraceJob)
unfolding key_for_job_id
job_for_token c job_id lease_token = elim (key_for_job_id c job_id) [
  | none ↦ err (unknown_job job_id)
  | some key ↦ elim (Map.get key c.jobs) [
    | none ↦ err (unknown_job job_id)
    | some job ↦
        if token_fits job.lease_token lease_token
        then ok (key, job)
        else err (invalid_lease_token job_id)
  ]
]

abbrev pub update_job : Text → TraceJob → Action TraceJob
update_job key job c = (ok job, set_job key job c)

unfoldable pub lease_next_at : WorkerId → JobKind → ℕ → ℕ → Action (Option TraceJob)
unfolding find_key
lease_next_at worker_id kind now_ms lease_ms c =
    elim (find_key (λ job. kind_eq job.kind kind && job_is_leasable job now_ms) c.jobs) [
      | none ↦ (ok none, c)
      | some key ↦ elim (Map.get key c.jobs) [
        | none ↦ (ok none, c)
        | some job ↦
            let leased_job = lease_at job worker_id now_ms lease_ms in
            (
              ok (some leased_job),
              record { jobs = Map.insert key leased_job (Map.remove key c.jobs) },
            )
      ]
    ]

abbrev pub renewed : TraceJob → ℕ → TraceJob
renewed job expires_at = record job { lease_expires_at_ms = some expires_at }

unfoldable pub heartbeat_job : Text → Text → ℕ → ℕ → Action TraceJob
heartbeat_job job_id lease_token now_ms lease_ms = do
  found ← gets (λ c. job_for_token c job_id (some lease_token))
  job ← lift found
  update_job job.0 (renewed job.1 (lease_expiry now_ms lease_ms))

abbrev pub succeeded_version : TraceJob → TraceJob
succeeded_version job = record job {
  status = JobStatus.succeeded;
  lease_expires_at_ms = none;
  next_attempt_after_ms = none;
}

unfoldable pub complete : Text → Option Text → Action TraceJob
complete job_id lease_token = do
  found ← gets (λ c. job_for_token c job_id lease_token)
  job ← lift found
  update_job job.0 (succeeded_version job.1)

unfoldable pub status_after_failure : TraceJob → Bool → JobStatus
status_after_failure job permanent =
    if permanent
    then JobStatus.failed_permanent
    else if leb job.max_attempts job.attempts
    then JobStatus.dead_lettered
    else JobStatus.failed_retryable

abbrev pub failed_version : TraceJob → Text → Bool → ℕ → TraceJob
failed_version job error permanent next_attempt_after_ms = record job {
  last_error = some error;
  lease_expires_at_ms = none;
  next_attempt_after_ms = some next_attempt_after_ms;
  status = status_after_failure job permanent;
}

unfoldable pub fail : Text → Option Text → Text → Bool → ℕ → Action TraceJob
unfolding status_after_failure
fail job_id lease_token error permanent next_attempt_after_ms = do
  found ← gets (λ c. job_for_token c job_id lease_token)
  job ← lift found
  update_job job.0 (failed_version job.1 error permanent next_attempt_after_ms)

-- What a `Leased` event writes to its job.
abbrev pub leased_by_event : TraceJob → WorkerId → Text → ℕ → TraceJob
leased_by_event job worker_id lease_token lease_expires_at_ms = record job {
  lease_owner = some worker_id;
  lease_token = some lease_token;
  lease_expires_at_ms = some lease_expires_at_ms;
  next_attempt_after_ms = none;
  attempts = next_attempt job.attempts;
  status = JobStatus.leased;
}

unfoldable pub apply_event : JobEvent → Action Unit
unfolding or_insert job_for_token complete fail
apply_event (enqueued job) c = (ok tt, or_insert job.idempotency_key job c)
apply_event (leased job_id worker_id lease_token lease_expires_at_ms) c =
    elim (key_for_job_id c job_id) [
      | none ↦ (err (unknown_job job_id), c)
      | some key ↦ elim (Map.get key c.jobs) [
        | none ↦ (err (unknown_job job_id), c)
        | some job ↦
            (ok tt, set_job key (leased_by_event job worker_id lease_token lease_expires_at_ms) c)
      ]
    ]
apply_event (heartbeat job_id lease_token lease_expires_at_ms) c =
    elim (job_for_token c job_id (some lease_token)) [
      | err e ↦ (err e, c)
      | ok job ↦ (ok tt, set_job job.0 (renewed job.1 lease_expires_at_ms) c)
    ]
apply_event (completed job_id lease_token) c = (do complete job_id (some lease_token); pure tt) c
apply_event (failed job_id lease_token error permanent next_attempt_after_ms) c =
    (do fail job_id lease_token error permanent next_attempt_after_ms; pure tt) c

unfoldable pub depth_by_status : JobCatalog → JobStatus → ℕ
depth_by_status c status = length (keep (λ job. status_eq job.status status) (Map.values c.jobs))
