-- ===== src/Jobs/Features.antt =====
-- crates/tracedb-features/src/lib.rs: the life of a derived feature and the jobs that compute it anew.
use tracedb.Base.{
  ℕ, Text, codes, decimal, Bool, true, false, Option, none, some, List, ◌++◌, ◌≡◌, refl, sym, arith,
  text_eq, text_eq_iff, Bool-cases, inl, inr, Result, ok, err,
}
use tracedb.Base.Map
use tracedb.Jobs.Job.{TraceJob, JobKind, JobStatus, WorkerId, job_is_leasable, lease_at}
use tracedb.Jobs.Catalog.{JobCatalog, enqueue, or_insert, lease_next_at}
use tracedb.Jobs.Valid.{IsValid}
use tracedb.Jobs.Replay.{lease_next_at-cases}

pub data FeatureFreshnessMode : Type 0 where
  strict lazy allow_dirty on_read allow_stale : FeatureFreshnessMode

pub data FeatureLifecycleStatus : Type 0 where
  ready dirty pending failed stale deprecated missing : FeatureLifecycleStatus

pub record FeatureLifecycle : Type 0 where
  pub feature_id : Text
  pub source_columns : List Text
  pub status : FeatureLifecycleStatus
  pub source_hash : ℕ
  pub valid_for_epoch : ℕ
  pub last_job_id : Option Text

-- `FeatureLifecycle::new`.
abbrev pub new_lifecycle : Text → List Text → FeatureLifecycle
new_lifecycle feature_id source_columns = record {
  feature_id = feature_id;
  source_columns = source_columns;
  status = FeatureLifecycleStatus.missing;
  source_hash = 0;
  valid_for_epoch = 0;
  last_job_id = none;
}

unfoldable pub mark_dirty : ℕ → ℕ → FeatureLifecycle → FeatureLifecycle
mark_dirty epoch source_hash feature = record feature {
  status = FeatureLifecycleStatus.dirty;
  valid_for_epoch = epoch;
  source_hash = source_hash;
}

abbrev pub recompute_key : FeatureLifecycle → Text → Text
recompute_key feature target =
    feature.feature_id ++ (codes ":" ++ (target ++ (codes ":" ++ decimal feature.source_hash)))

abbrev pub awaiting : TraceJob → FeatureLifecycle → FeatureLifecycle
awaiting job feature = record feature {
  last_job_id = some job.job_id;
  status = FeatureLifecycleStatus.pending;
}

-- `enqueue_recompute` changes the feature and the catalog of jobs: the result and the two that are left.
unfoldable pub enqueue_recompute :
    Text → FeatureLifecycle → JobCatalog → Result Text TraceJob × FeatureLifecycle × JobCatalog
enqueue_recompute target feature jobs =
    let (result, left) =
      enqueue JobKind.generate_embedding target (recompute_key feature target) jobs in
    elim result [ err e ↦ (err e, feature, left) | ok job ↦ (ok job, awaiting job feature, left) ]

abbrev pub mark_failed : FeatureLifecycle → FeatureLifecycle
mark_failed feature = record feature { status = FeatureLifecycleStatus.failed }

unfoldable pub is_usable_for : FeatureLifecycleStatus → FeatureFreshnessMode → Bool
is_usable_for FeatureLifecycleStatus.ready FeatureFreshnessMode.strict = true
is_usable_for _ FeatureFreshnessMode.strict = false
is_usable_for FeatureLifecycleStatus.ready FeatureFreshnessMode.lazy = true
is_usable_for FeatureLifecycleStatus.dirty FeatureFreshnessMode.lazy = true
is_usable_for _ FeatureFreshnessMode.lazy = false
is_usable_for FeatureLifecycleStatus.ready FeatureFreshnessMode.allow_dirty = true
is_usable_for FeatureLifecycleStatus.dirty FeatureFreshnessMode.allow_dirty = true
is_usable_for _ FeatureFreshnessMode.allow_dirty = false
is_usable_for FeatureLifecycleStatus.failed FeatureFreshnessMode.on_read = false
is_usable_for _ FeatureFreshnessMode.on_read = true
is_usable_for FeatureLifecycleStatus.failed FeatureFreshnessMode.allow_stale = false
is_usable_for FeatureLifecycleStatus.deprecated FeatureFreshnessMode.allow_stale = false
is_usable_for _ FeatureFreshnessMode.allow_stale = true

enqueue-known :
    (kind : JobKind) (target key : Text) (jobs : JobCatalog) (job : TraceJob)
    → Map.get key jobs.jobs ≡ some job
    → enqueue kind target key jobs ≡ (ok job, jobs)
unfolding enqueue or_insert
enqueue-known kind target key jobs job there = ground (arith, there)

-- A job that was leased is not one that nothing may lease.
lease-leaves :
    (worker_id : WorkerId) (kind : JobKind) (now_ms lease_ms : ℕ) (jobs : JobCatalog) (key : Text)
    (job : TraceJob)
    → IsValid jobs
    → Map.get key jobs.jobs ≡ some job
    → job_is_leasable job now_ms ≡ false
    → Map.get key (lease_next_at worker_id kind now_ms lease_ms jobs).1.jobs ≡ some job
lease-leaves worker_id kind now_ms lease_ms jobs key job v there over =
    elim (lease_next_at-cases worker_id kind now_ms lease_ms jobs v) [
      | inl (_, p) ↦ rw p there
      | inr (k, next, _, found, _, leasable, p) ↦
          rw (p, Map.get-insert key k (lease_at next worker_id now_ms lease_ms) jobs.jobs)
            (elim (Bool-cases (text_eq key k)) [
              | inl same ↦ let at_key : k ≡ key = sym ((text_eq_iff key k).0 same) in absurd (cc)
              | inr apart ↦ rw apart there
            ])
    ]

-- Where a job that succeeded stands under the key of a feature, the feature is pending after
-- `enqueue_recompute` and waits for that job: the catalog is as it was, and no lease, whoever asks for
-- what kind and when, takes the job up again.
pub enqueue_recompute-finished :
    (target : Text) (feature : FeatureLifecycle) (jobs : JobCatalog) (job : TraceJob)
    → IsValid jobs
    → Map.get (recompute_key feature target) jobs.jobs ≡ some job
    → job.status ≡ JobStatus.succeeded
    → (enqueue_recompute target feature jobs ≡ (ok job, awaiting job feature, jobs))
      × ((worker_id : WorkerId) (kind : JobKind) (now_ms lease_ms : ℕ)
          → Map.get
              (recompute_key feature target)
              (lease_next_at worker_id kind now_ms lease_ms jobs).1.jobs
            ≡ some job)
unfolding enqueue_recompute job_is_leasable
enqueue_recompute-finished target feature jobs job v there done = (
  let same =
        enqueue-known JobKind.generate_embedding target (recompute_key feature target) jobs job
          there in
      rw (same, enqueue_recompute) (rw same refl),
  λ worker_id kind now_ms lease_ms.
      lease-leaves worker_id kind now_ms lease_ms jobs (recompute_key feature target) job v there
        (rw done refl),
)
