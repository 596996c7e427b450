-- ===== src/Jobs/Engine.antt =====
-- crates/tracedb-query/src/lib.rs: the job methods of `TraceDb`. Each plans on a copy of the catalog,
-- writes one event to the log and then keeps the plan. The append to the file, the lock and the
-- manifest are not modelled: an append that fails keeps the catalog, as a plan that fails does.
use tracedb.Base.{
  ℕ, Text, Bool, Option, none, some, List, [], ◌∷◌, ◌++◌, unwrap_or, Result, ok, err,
}
use tracedb.Jobs.Job.{TraceJob, JobKind, WorkerId, saturating_add}
use tracedb.Jobs.Catalog.{
  JobCatalog, JobEvent, enqueued, leased, heartbeat, completed, failed, default_catalog, enqueue,
  lease_next_at, complete, fail, apply_event,
}
use tracedb.Jobs.Catalog

pub record JobLog : Type 0 where
  pub catalog : JobCatalog
  pub log : List JobEvent

abbrev pub empty_log : JobLog
empty_log = record { catalog = default_catalog; log = [] }

-- The durable part of `append_job_event`.
unfoldable pub append_job_event : JobEvent → JobCatalog → JobLog → JobLog
append_job_event event planned s = record { catalog = planned; log = s.log ++ event ∷ [] }

-- `planned.operation(..).map_err(..)?`, then the event of the job that it gives.
abbrev planned_event :
    Result Text TraceJob × JobCatalog
    → (TraceJob → JobEvent)
    → JobLog
    → Result Text TraceJob × JobLog
planned_event planned event s = elim planned.0 [
  | err e ↦ (err e, s)
  | ok job ↦ (ok job, append_job_event (event job) planned.1 s)
]

unfoldable pub enqueue_job : JobKind → Text → Text → JobLog → Result Text TraceJob × JobLog
unfolding append_job_event
enqueue_job kind target idempotency_key s =
    planned_event (enqueue kind target idempotency_key s.catalog) enqueued s

unfoldable pub lease_job :
    WorkerId → JobKind → ℕ → ℕ → JobLog → Result Text (Option TraceJob) × JobLog
unfolding append_job_event
lease_job worker_id kind now_ms lease_ms s =
    let planned = lease_next_at worker_id kind now_ms lease_ms s.catalog in
    elim planned.0 [
      | err e ↦ (err e, s)
      | ok none ↦ (ok none, s)
      | ok (some job) ↦ (
        ok (some job),
        append_job_event
            (leased job.job_id worker_id (unwrap_or job.lease_token [])
              (unwrap_or job.lease_expires_at_ms (saturating_add now_ms lease_ms)))
            planned.1 s,
      )
    ]

unfoldable pub heartbeat_job : Text → Text → ℕ → ℕ → JobLog → Result Text TraceJob × JobLog
unfolding append_job_event
heartbeat_job job_id lease_token now_ms lease_ms s =
    planned_event (Catalog.heartbeat_job job_id lease_token now_ms lease_ms s.catalog)
      (λ job.
        heartbeat job_id lease_token
          (unwrap_or job.lease_expires_at_ms (saturating_add now_ms lease_ms)))
      s

unfoldable pub complete_job : Text → Text → JobLog → Result Text TraceJob × JobLog
unfolding append_job_event
complete_job job_id lease_token s =
    planned_event (complete job_id (some lease_token) s.catalog) (λ _. completed job_id lease_token)
      s

unfoldable pub fail_job :
    Text → Option Text → Text → Bool → ℕ → JobLog → Result Text TraceJob × JobLog
unfolding append_job_event
fail_job job_id lease_token error permanent now_ms s =
    planned_event (fail job_id lease_token error permanent now_ms s.catalog)
      (λ _. failed job_id lease_token error permanent now_ms) s

-- Recovery applies the events of the log in order, and stops at an error.
unfoldable pub replay_from : JobCatalog → List JobEvent → Result Text JobCatalog
replay_from c [] = ok c
replay_from c (event ∷ events) =
    let rest = replay_from (apply_event event c).1 events in
    elim (apply_event event c).0 [ err e ↦ err e | ok _ ↦ rest ]
