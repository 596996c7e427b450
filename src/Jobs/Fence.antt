-- ===== src/Jobs/Fence.antt =====
-- Theorems on lease tokens, for crates/tracedb-jobs/src/lib.rs.
use tracedb.Base.{
  ℕ, ◌<◌, ◌^◌, Text, text_eq, text_eq_iff, decimal, decimal-injective, codes, Bool, false, Option,
  some, ◌++◌, ◌≡◌, ◌≢◌, sym, ap, ◌∙◌, arith, Bool-cases, inl, inr, Result, ok, err,
}
use mathlib.Core.List.{append_cancel_left}
use tracedb.Base.Map
use tracedb.Base.Map.{Map}
use tracedb.Jobs.Job.{TraceJob, JobKind, WorkerId, lease_at, lease_token_for, next_attempt}
use tracedb.Jobs.Catalog
use tracedb.Jobs.Catalog.{
  token_fits, JobCatalog, lease_next_at, complete, fail, job_for_token, set_job, find_key,
  invalid_lease_token, failed_version, succeeded_version,
}
use tracedb.Jobs.Valid.{IsValid, key_for_job_id-own, job_id_for-injective}
use tracedb.Jobs.Replay.{lease_next_at-cases, leased-IsValid}
use tracedb.Jobs.Lease.{job_id-lease_at}

-- The token of an attempt is not that of the next one.
token_changes :
    (job : TraceJob)
    → job.attempts < 2 ^ 32
    → lease_token_for job.job_id (next_attempt job.attempts)
      ≢ lease_token_for job.job_id job.attempts
unfolding lease_token_for
token_changes job small same =
    let colons =
      append_cancel_left job.job_id (codes ":" ++ decimal (next_attempt job.attempts))
        (codes ":" ++ decimal job.attempts) (append_cancel_left (codes "lease:") _ _ same) in
    let n =
      decimal-injective (next_attempt job.attempts) job.attempts
        (append_cancel_left (codes ":") _ _ colons) in
    omega (arith, n, small)

-- A token that the job does not hold is refused.
module _ (c : JobCatalog) (k : Text) (job : TraceJob) (token : Text) (v : IsValid c)
    (there : Map.get k c.jobs ≡ some job)
    (other : token_fits job.lease_token (some token) ≡ false) where
  job_for_token-refused :
      job_for_token c job.job_id (some token) ≡ err (invalid_lease_token job.job_id)
  unfolding job_for_token
  job_for_token-refused =
      rw (key_for_job_id-own c k job v there, job_for_token)
        (rw (there, job_for_token) (rw (other, job_for_token)))

  complete-refused : complete job.job_id (some token) c ≡ (err (invalid_lease_token job.job_id), c)
  unfolding complete
  complete-refused = ground (arith, job_for_token-refused)

  fail-refused :
      (error : Text) (permanent : Bool) (ready_at : ℕ)
      → fail job.job_id (some token) error permanent ready_at c
        ≡ (err (invalid_lease_token job.job_id), c)
  unfolding fail
  fail-refused error permanent ready_at = ground (arith, job_for_token-refused)

  heartbeat-refused :
      (now_ms lease_ms : ℕ)
      → Catalog.heartbeat_job job.job_id token now_ms lease_ms c
        ≡ (err (invalid_lease_token job.job_id), c)
  unfolding Catalog.heartbeat_job
  heartbeat-refused now_ms lease_ms = ground (arith, job_for_token-refused)

-- The token that a lease replaced, in the catalog that the lease left.
module _ (worker_id : WorkerId) (kind : JobKind) (now_ms lease_ms : ℕ) (c : JobCatalog) (k : Text)
    (job : TraceJob) where
  abbrev pub old_token : Text
  old_token = lease_token_for job.job_id job.attempts

  abbrev pub left_catalog : JobCatalog
  left_catalog = (lease_next_at worker_id kind now_ms lease_ms c).1

  -- What refuses the old token.
  abbrev Refuses : JobCatalog → Type 0
  Refuses d =
      (complete job.job_id (some old_token) d ≡ (err (invalid_lease_token job.job_id), d))
      × ((error : Text) (permanent : Bool) (ready_at : ℕ)
          → fail job.job_id (some old_token) error permanent ready_at d
            ≡ (err (invalid_lease_token job.job_id), d))
      × ((now' lease' : ℕ)
          → Catalog.heartbeat_job job.job_id old_token now' lease' d
            ≡ (err (invalid_lease_token job.job_id), d))

  old_token-unfit :
      job.attempts < 2 ^ 32
      → token_fits (lease_at job worker_id now_ms lease_ms).lease_token (some old_token) ≡ false
  unfolding lease_at
  old_token-unfit small =
      elim (Bool-cases
        (text_eq (lease_token_for job.job_id (next_attempt job.attempts)) old_token)) [
          | inl equal ↦ absurd (token_changes job small ((text_eq_iff _ _).0 equal))
          | inr unequal ↦ unequal
        ]

  leased-Refuses :
      IsValid c
      → Map.get k c.jobs ≡ some job
      → job.attempts < 2 ^ 32
      → Refuses (set_job k (lease_at job worker_id now_ms lease_ms) c)
  unfolding lease_at
  leased-Refuses v there small =
      let d = set_job k (lease_at job worker_id now_ms lease_ms) c in
      let new = lease_at job worker_id now_ms lease_ms in
      let v' = leased-IsValid worker_id kind now_ms lease_ms c v k job there in
      let there' : Map.get k d.jobs ≡ some new = Map.get-insert_self k new c.jobs in
      let unfit = old_token-unfit small in
      (
        (complete-refused d k new old_token v' there' unfit),
        λ error permanent ready_at.
            (fail-refused d k new old_token v' there' unfit error permanent ready_at),
        λ now' lease'. (heartbeat-refused d k new old_token v' there' unfit now' lease'),
      )

  -- In a valid catalog, where a job has made `attempts` attempts, fewer than 2^32, a lease of that job
  -- leaves a catalog in which the token of the last of those attempts is refused: completing, failing
  -- and renewing the job with it are errors that change nothing.
  pub lease-fences :
      {again : TraceJob}
      → IsValid c
      → Map.get k c.jobs ≡ some job
      → job.attempts < 2 ^ 32
      → (lease_next_at worker_id kind now_ms lease_ms c).0 ≡ ok (some again)
      → again.job_id ≡ job.job_id
      → (complete job.job_id (some old_token) left_catalog
          ≡ (err (invalid_lease_token job.job_id), left_catalog))
        × ((error : Text) (permanent : Bool) (ready_at : ℕ)
            → fail job.job_id (some old_token) error permanent ready_at left_catalog
              ≡ (err (invalid_lease_token job.job_id), left_catalog))
        × ((now' lease' : ℕ)
            → Catalog.heartbeat_job job.job_id old_token now' lease' left_catalog
              ≡ (err (invalid_lease_token job.job_id), left_catalog))
  lease-fences {again} v there small gave same =
      elim (lease_next_at-cases worker_id kind now_ms lease_ms c v) [
        | inl (nothing, p) ↦ absurd (cc)
        | inr (j, before, found, there', is_kind, leasable, p) ↦
            let is : again ≡ lease_at before worker_id now_ms lease_ms = ground arith in
            let ids : before.job_id ≡ job.job_id =
              sym (job_id-lease_at before worker_id now_ms lease_ms)
              ∙ (sym (ap (λ (t : TraceJob). t.job_id) is) ∙ same) in
            let keys : j ≡ k =
              job_id_for-injective before.kind job.kind j k
                (sym (v.own_id j before there') ∙ (ids ∙ v.own_id k job there)) in
            let jobs : before ≡ job = ground arith in
            let left : left_catalog ≡ set_job k (lease_at job worker_id now_ms lease_ms) c =
              rw (← jobs, ← keys)
                (ap (λ (r : Result Text (Option TraceJob) × JobCatalog). r.1) p) in
            rw left (leased-Refuses v there small)
      ]
