-- ===== src/Jobs/Lease.antt =====
-- Theorems on `lease_next_at` of crates/tracedb-jobs/src/lib.rs.
use tracedb.Base.{
  ℕ, ◌<◌, Text, text_eq_iff, Bool, true, false, ◌&&◌, Option, none, some, ◌≡◌, ◌≢◌, ◌↔◌, refl, sym,
  ap, ◌∙◌, arith, Bool-cases, inl, inr, Result, ok,
}
use tracedb.Base.Map
use tracedb.Base.Map.{Map}
use tracedb.Jobs.Job.{TraceJob, JobKind, WorkerId, lease_at, lease_expiry, job_is_leasable, kind_eq}
use tracedb.Jobs.Catalog.{JobCatalog, lease_next_at, set_job, find_key}
use tracedb.Jobs.Valid.{IsValid, find_key_complete, job_id_for-injective}
use tracedb.Jobs.Replay.{lease_next_at-cases, leased-IsValid}

-- A leased job is not leasable before the end of its lease.
held :
    (job : TraceJob) (worker_id : WorkerId) (now_ms lease_ms now' : ℕ)
    → now' < lease_expiry now_ms lease_ms
    → job_is_leasable (lease_at job worker_id now_ms lease_ms) now' ≡ false
unfolding job_is_leasable lease_at
held job worker_id now_ms lease_ms now' h = ground arith

pub job_id-lease_at :
    (job : TraceJob) (worker_id : WorkerId) (now_ms lease_ms : ℕ)
    → (lease_at job worker_id now_ms lease_ms).job_id ≡ job.job_id
unfolding lease_at
job_id-lease_at job worker_id now_ms lease_ms = refl

module _ (worker_id worker' : WorkerId) (kind' : JobKind) (now_ms lease_ms now' lease' : ℕ)
    (c : JobCatalog) (k : Text) (job : TraceJob) where
  abbrev after : TraceJob
  after = lease_at job worker_id now_ms lease_ms

  -- What is leasable again is not under the key just leased.
  other_key :
      (k' : Text) {job' : TraceJob}
      → now' < lease_expiry now_ms lease_ms
      → Map.get k' (set_job k after c).jobs ≡ some job'
      → job_is_leasable job' now' ≡ true
      → k' ≢ k
  other_key k' {job'} early there' leasable same =
      let is : job' ≡ after = ground (arith, Map.get-insert k' k after c.jobs, text_eq_iff k' k) in
      cc (rw is at leasable, held job worker_id now_ms lease_ms now' early)

  second_lease :
      {other : TraceJob}
      → IsValid c
      → Map.get k c.jobs ≡ some job
      → now' < lease_expiry now_ms lease_ms
      → (lease_next_at worker' kind' now' lease' (set_job k after c)).0 ≡ ok (some other)
      → other.job_id ≢ job.job_id
  second_lease {other} v there early second same =
      let v' = leased-IsValid worker_id kind' now_ms lease_ms c v k job there in
      elim (lease_next_at-cases worker' kind' now' lease' (set_job k after c) v') [
        | inl (nothing, q) ↦ cc
        | inr (k', job', found', there', is_kind', leasable', q) ↦
            let is : other ≡ lease_at job' worker' now' lease' = ground arith in
            let ids : job'.job_id ≡ job.job_id =
              sym (job_id-lease_at job' worker' now' lease')
              ∙ (sym (ap (λ (j : TraceJob). j.job_id) is) ∙ same) in
            other_key k' {job' = job'} early there' leasable' (
              job_id_for-injective job'.kind job.kind k' k
                (sym (v'.own_id k' job' there') ∙ (ids ∙ v.own_id k job there)))
      ]

-- In a valid catalog, after a lease that gives a job, no lease before the end of that lease, by
-- any worker and of any kind, gives a job with the same id.
pub lease-exclusive :
    (worker_id worker' : WorkerId) (kind kind' : JobKind) (now_ms lease_ms now' lease' : ℕ)
    (c : JobCatalog) {job other : TraceJob}
    → IsValid c
    → now' < lease_expiry now_ms lease_ms
    → (lease_next_at worker_id kind now_ms lease_ms c).0 ≡ ok (some job)
    → (lease_next_at worker' kind' now' lease' (lease_next_at worker_id kind now_ms lease_ms c).1).0
      ≡ ok (some other)
    → other.job_id ≢ job.job_id
lease-exclusive worker_id worker' kind kind' now_ms lease_ms now' lease' c {job} {other} v early
      first second =
    elim (lease_next_at-cases worker_id kind now_ms lease_ms c v) [
      | inl (nothing, p) ↦ absurd (cc)
      | inr (k, before, found, there, is_kind, leasable, p) ↦ λ same.
          let is : job ≡ lease_at before worker_id now_ms lease_ms = ground arith in
          let left : (lease_next_at worker_id kind now_ms lease_ms c).1
              ≡ set_job k (lease_at before worker_id now_ms lease_ms) c =
            ground arith in
          second_lease worker_id worker' kind' now_ms lease_ms now' lease' c k before
            {other = other} v there early (rw left at second)
            (same
              ∙ (ap (λ (j : TraceJob). j.job_id) is
                  ∙ job_id-lease_at before worker_id now_ms lease_ms))
    ]

-- Where a search finds no key, no entry passes.
none_passes :
    (p : TraceJob → Bool) (m : Map TraceJob) (k : Text) (job : TraceJob)
    → find_key p m ≡ none
    → Map.get k m ≡ some job
    → p job ≡ false
none_passes p m k job nothing there = elim (Bool-cases (p job)) [
  | inl passes ↦ let (j, found) = find_key_complete p m k {job = job} there passes in absurd (cc)
  | inr fails ↦ fails
]

-- In a valid catalog, a lease gives no job exactly when no job of the kind is leasable.
pub lease-none_iff :
    (worker_id : WorkerId) (kind : JobKind) (now_ms lease_ms : ℕ) (c : JobCatalog)
    → IsValid c
    → ((lease_next_at worker_id kind now_ms lease_ms c).0 ≡ ok none) ↔ (
        (k : Text) (job : TraceJob)
        → Map.get k c.jobs ≡ some job
        → kind_eq job.kind kind && job_is_leasable job now_ms ≡ false)
lease-none_iff worker_id kind now_ms lease_ms c v =
    elim (lease_next_at-cases worker_id kind now_ms lease_ms c v) [
      | inl (nothing, p) ↦ (
        λ _ k job there.
            none_passes (λ j. kind_eq j.kind kind && job_is_leasable j now_ms) c.jobs k job nothing
              there,
        λ _. ap (λ (r : Result Text (Option TraceJob) × JobCatalog). r.0) p,
      )
      | inr (k, before, found, there, is_kind, leasable, p) ↦
          (λ none_given. absurd (cc), λ nothing. absurd (ground (arith, nothing k before there)))
    ]
