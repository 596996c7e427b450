-- ===== src/Jobs/Tests.antt =====
-- A queue of two jobs, and runs of the job methods on it.
use tracedb.Base.{
  ℕ, Text, codes, Bool, false, none, some, List, [], ◌∷◌, ◌≡◌, ◌≢◌, ◌↔◌, ◌&&◌, refl, arith, ok, err,
  text_eq, text_cmp,
}
use tracedb.Base.Map
use tracedb.Jobs.Job.{
  TraceJob, JobKind, JobStatus, WorkerId, lease_at, new_job, job_is_leasable, kind_eq,
}
use tracedb.Jobs.Catalog
use tracedb.Jobs.Catalog.{
  JobCatalog, set_job, lease_next_at, complete, fail, default_catalog, invalid_lease_token,
}
use tracedb.Jobs.Engine.{empty_log}
use tracedb.Jobs.Valid.{IsValid, default-IsValid, set_job-IsValid}
use tracedb.Jobs.Commands.{
  Command, enqueue_command, lease_command, perform_all, perform_all-IsDurable, empty_log-IsDurable,
}
use tracedb.Jobs.Lease.{lease-exclusive, lease-none_iff}
use tracedb.Jobs.Features.{
  FeatureLifecycle, new_lifecycle, mark_dirty, recompute_key, awaiting, enqueue_recompute,
  enqueue_recompute-finished,
}
use tracedb.Jobs.Fence.{lease-fences, old_token, left_catalog}

abbrev calls : List Command
calls =
    enqueue_command JobKind.compact_segment (codes "segment") (codes "a")
    ∷ enqueue_command JobKind.compact_segment (codes "segment") (codes "b")
    ∷ []

abbrev queue : JobCatalog
queue = (perform_all calls empty_log).catalog

queue-IsValid : IsValid queue
queue-IsValid = (perform_all-IsDurable calls empty_log empty_log-IsDurable).valid

abbrev job_a : TraceJob
job_a = new_job JobKind.compact_segment (codes "segment") (codes "a")

abbrev job_b : TraceJob
job_b = new_job JobKind.compact_segment (codes "segment") (codes "b")

leased_a :
    (lease_next_at (codes "w") JobKind.compact_segment 10 5 queue).0
    ≡ ok (some (lease_at job_a (codes "w") 10 5))
unfolding lease_next_at tracedb.Jobs.Engine.enqueue_job Catalog.enqueue Map.get Map.insert text_eq
    text_cmp new_job job_is_leasable
leased_a = refl

leased_b :
    (lease_next_at
      (codes "v")
      JobKind.compact_segment
      12
      5
      (lease_next_at (codes "w") JobKind.compact_segment 10 5 queue).1).0
    ≡ ok (some (lease_at job_b (codes "v") 12 5))
unfolding lease_next_at tracedb.Jobs.Engine.enqueue_job Catalog.enqueue Map.get Map.insert text_eq
    text_cmp new_job job_is_leasable Map.remove lease_at
leased_b = refl

lease-exclusive_example :
    (lease_at job_b (codes "v") 12 5).job_id ≢ (lease_at job_a (codes "w") 10 5).job_id
lease-exclusive_example =
    lease-exclusive (codes "w") (codes "v") JobKind.compact_segment JobKind.compact_segment 10 5 12
      5 queue queue-IsValid (omega arith) leased_a leased_b

lease-none_iff_example :
    ((lease_next_at (codes "w") JobKind.feature_refresh 10 5 queue).0 ≡ ok none) ↔ (
      (k : Text) (job : TraceJob)
      → Map.get k queue.jobs ≡ some job
      → kind_eq job.kind JobKind.feature_refresh && job_is_leasable job 10 ≡ false)
lease-none_iff_example = lease-none_iff (codes "w") JobKind.feature_refresh 10 5 queue queue-IsValid

-- The queue after the first lease of `a`, which runs out at 15.
abbrev once : JobCatalog
once =
    (perform_all (lease_command (codes "w") JobKind.compact_segment 10 5 ∷ [])
      (perform_all calls empty_log)).catalog

once-IsValid : IsValid once
once-IsValid =
    (perform_all-IsDurable (lease_command (codes "w") JobKind.compact_segment 10 5 ∷ [])
      (perform_all calls empty_log)
      (perform_all-IsDurable calls empty_log empty_log-IsDurable)).valid

abbrev held_a : TraceJob
held_a = lease_at job_a (codes "w") 10 5

there_a : Map.get (codes "a") once.jobs ≡ some held_a
unfolding Map.get tracedb.Jobs.Engine.lease_job lease_next_at tracedb.Jobs.Engine.enqueue_job
    Catalog.enqueue Map.insert text_eq text_cmp new_job job_is_leasable Map.remove
there_a = refl

leased_again :
    (lease_next_at (codes "v") JobKind.compact_segment 15 5 once).0
    ≡ ok (some (lease_at held_a (codes "v") 15 5))
unfolding lease_next_at tracedb.Jobs.Engine.lease_job tracedb.Jobs.Engine.enqueue_job
    Catalog.enqueue Map.get Map.insert text_eq text_cmp new_job job_is_leasable Map.remove lease_at
leased_again = refl

lease-fences_example :
    (complete held_a.job_id
        (some (old_token (codes "v") JobKind.compact_segment 15 5 once (codes "a") held_a))
        (left_catalog (codes "v") JobKind.compact_segment 15 5 once (codes "a") held_a)
      ≡ (
        err (invalid_lease_token held_a.job_id),
        left_catalog (codes "v") JobKind.compact_segment 15 5 once (codes "a") held_a,
      ))
    × ((error : Text) (permanent : Bool) (ready_at : ℕ)
        → fail held_a.job_id
            (some (old_token (codes "v") JobKind.compact_segment 15 5 once (codes "a") held_a))
            error
            permanent
            ready_at
            (left_catalog (codes "v") JobKind.compact_segment 15 5 once (codes "a") held_a)
          ≡ (
            err (invalid_lease_token held_a.job_id),
            left_catalog (codes "v") JobKind.compact_segment 15 5 once (codes "a") held_a,
          ))
    × ((now' lease' : ℕ)
        → Catalog.heartbeat_job held_a.job_id
            (old_token (codes "v") JobKind.compact_segment 15 5 once (codes "a") held_a)
            now'
            lease'
            (left_catalog (codes "v") JobKind.compact_segment 15 5 once (codes "a") held_a)
          ≡ (
            err (invalid_lease_token held_a.job_id),
            left_catalog (codes "v") JobKind.compact_segment 15 5 once (codes "a") held_a,
          ))
lease-fences_example =
    lease-fences (codes "v") JobKind.compact_segment 15 5 once (codes "a") held_a once-IsValid
      there_a (unfold lease_at in omega arith) leased_again (unfold lease_at in refl)

abbrev sample_feature : FeatureLifecycle
sample_feature = mark_dirty 4 7 (new_lifecycle (codes "f") (codes "body" ∷ []))

abbrev succeeded_job : TraceJob
succeeded_job = record (new_job JobKind.generate_embedding (codes "r") (codes "f:r:7")) {
  status = JobStatus.succeeded;
}

abbrev finished : JobCatalog
finished = set_job (codes "f:r:7") succeeded_job default_catalog

finished-IsValid : IsValid finished
unfolding new_job
finished-IsValid =
    set_job-IsValid default_catalog (codes "f:r:7") succeeded_job default-IsValid refl refl

there : Map.get (recompute_key sample_feature (codes "r")) finished.jobs ≡ some succeeded_job
unfolding Map.get Map.insert mark_dirty text_eq text_cmp tracedb.Base.decimal
there = refl

enqueue_recompute-finished_example :
    (enqueue_recompute (codes "r") sample_feature finished
      ≡ (ok succeeded_job, awaiting succeeded_job sample_feature, finished))
    × ((worker_id : WorkerId) (kind : JobKind) (now_ms lease_ms : ℕ)
        → Map.get
            (recompute_key sample_feature (codes "r"))
            (lease_next_at worker_id kind now_ms lease_ms finished).1.jobs
          ≡ some succeeded_job)
enqueue_recompute-finished_example =
    enqueue_recompute-finished (codes "r") sample_feature finished succeeded_job finished-IsValid
      there refl
