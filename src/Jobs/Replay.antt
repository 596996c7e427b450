-- ===== src/Jobs/Replay.antt =====
-- Lemmas on the job methods of crates/tracedb-query/src/lib.rs and the events that they log.
use tracedb.Base.{
  ℕ, Text, Bool, true, Option, none, some, List, [], ◌∷◌, ◌++◌, ◌≡◌, refl, ◌∙◌, arith, Option-cases,
  inl, inr, ◌⊎◌, unwrap_or, ok, Result-cases, ◌&&◌, &&_iff,
}
use tracedb.Base.Map
use tracedb.Jobs.Job.{
  TraceJob, JobKind, WorkerId, new_job, lease_at, job_is_leasable, kind_eq, saturating_add,
  lease_expiry,
}
use tracedb.Jobs.Catalog
use tracedb.Jobs.Catalog.{
  JobCatalog, JobEvent, default_catalog, enqueue, lease_next_at, complete, fail, apply_event,
  key_for_job_id, job_for_token, set_job, find_key, or_insert, leased_by_event, enqueued, leased,
  completed, failed, heartbeat, succeeded_version, failed_version, renewed,
}
use tracedb.Jobs.Valid.{IsValid, set_job-IsValid, find_key_sound, key_for_job_id-own}
use tracedb.Jobs.Engine.{
  JobLog, append_job_event, enqueue_job, lease_job, heartbeat_job, complete_job, fail_job,
  replay_from,
}

-- The log replays to the catalog, and the catalog is valid.
pub record IsDurable (s : JobLog) : Type 0 where
  pub replays : replay_from default_catalog s.log ≡ ok s.catalog
  pub valid : IsValid s.catalog

replay_from-append :
    (c : JobCatalog) (log : List JobEvent) (event : JobEvent) {d e : JobCatalog}
    → replay_from c log ≡ ok d
    → apply_event event d ≡ (ok tt, e)
    → replay_from c (log ++ event ∷ []) ≡ ok e
unfolding replay_from
replay_from-append c [] event {d} {e} p q = ground arith
replay_from-append c (first ∷ log) event {d} {e} p q =
    ground (arith, replay_from-append (apply_event first c).1 log event {d = d} {e = e})

-- A step that logs an event keeps both, if the event does to the catalog what the plan did.
append-IsDurable :
    (s : JobLog) (event : JobEvent) (planned : JobCatalog)
    → IsDurable s
    → apply_event event s.catalog ≡ (ok tt, planned)
    → IsValid planned
    → IsDurable (append_job_event event planned s)
unfolding append_job_event
append-IsDurable s event planned h p v = record {
  replays = replay_from-append default_catalog s.log event h.replays p;
  valid = v;
}

-- Enqueuing.
module _ (kind : JobKind) (target key : Text) (c : JobCatalog) (v : IsValid c) where
  enqueued_job : TraceJob
  enqueued_job = unwrap_or (Map.get key c.jobs) (new_job kind target key)

  enqueue-eq :
      enqueue kind target key c ≡ (ok enqueued_job, or_insert key (new_job kind target key) c)
  unfolding enqueue enqueued_job
  enqueue-eq = ground (arith, Map.get-insert_self key (new_job kind target key) c.jobs)

  enqueued-replays :
      apply_event (enqueued enqueued_job) c ≡ (ok tt, or_insert key (new_job kind target key) c)
  unfolding apply_event enqueued_job or_insert new_job
  enqueued-replays =
      ground (arith, v.own_key key (unwrap_or (Map.get key c.jobs) (new_job kind target key)))

  enqueue-IsValid : IsValid (or_insert key (new_job kind target key) c)
  unfolding or_insert new_job
  enqueue-IsValid = elim (Option-cases (Map.get key c.jobs)) [
    | inl absent ↦
        rw (absent, or_insert) (set_job-IsValid c key (new_job kind target key) v refl refl)
    | inr (job, there) ↦ rw (there, or_insert) v
  ]

pub enqueue_job-IsDurable :
    (kind : JobKind) (target key : Text) (s : JobLog)
    → IsDurable s
    → IsDurable (enqueue_job kind target key s).1
unfolding enqueue_job
enqueue_job-IsDurable kind target key s h = rw (enqueue-eq kind target key s.catalog h.valid) (
    append-IsDurable s (enqueued (enqueued_job kind target key s.catalog h.valid)) _ h
      (enqueued-replays kind target key s.catalog h.valid)
      (enqueue-IsValid kind target key s.catalog h.valid))

-- Leasing.
module _ (worker_id : WorkerId) (kind : JobKind) (now_ms lease_ms : ℕ) (c : JobCatalog)
    (v : IsValid c) where
  -- Nothing to lease, or the first leasable job of the kind is.
  pub lease_next_at-cases :
      ((find_key (λ j. kind_eq j.kind kind && job_is_leasable j now_ms) c.jobs ≡ none)
        × (lease_next_at worker_id kind now_ms lease_ms c ≡ (ok none, c)))
      ⊎ ((k : Text) × (job : TraceJob) × (find_key
              (λ j. kind_eq j.kind kind && job_is_leasable j now_ms)
              c.jobs
            ≡ some k)
          × (Map.get k c.jobs ≡ some job)
          × (kind_eq job.kind kind ≡ true)
          × (job_is_leasable job now_ms ≡ true)
          × (lease_next_at worker_id kind now_ms lease_ms c ≡ (
            ok (some (lease_at job worker_id now_ms lease_ms)),
            set_job k (lease_at job worker_id now_ms lease_ms) c,
          )))
  unfolding lease_next_at
  lease_next_at-cases =
      elim (Option-cases (find_key (λ j. kind_eq j.kind kind && job_is_leasable j now_ms) c.jobs)) [
        | inl nothing ↦ inl (nothing, rw (nothing, lease_next_at))
        | inr (k, found) ↦
            let (job, there, fits) =
              find_key_sound (λ j. kind_eq j.kind kind && job_is_leasable j now_ms) c.jobs {k = k}
                v.sorted found in
            inr (
              k,
              job,
              found,
              there,
              ((&&_iff (kind_eq job.kind kind) (job_is_leasable job now_ms)).0 fits).0,
              ((&&_iff (kind_eq job.kind kind) (job_is_leasable job now_ms)).0 fits).1,
              rw (found, lease_next_at)
                  (rw (there, lease_next_at)
                    (rw (
                      Map.insert-remove k (lease_at job worker_id now_ms lease_ms) c.jobs
                        v.sorted))),
            )
      ]

  -- The event of a lease does to the catalog what the lease did.
  leased_replays :
      (k : Text) (job : TraceJob) (expiry : ℕ)
      → Map.get k c.jobs ≡ some job
      → let after = lease_at job worker_id now_ms lease_ms in
        apply_event
          (leased after.job_id worker_id
            (unwrap_or after.lease_token [])
            (unwrap_or after.lease_expires_at_ms expiry))
          c
        ≡ (ok tt, set_job k after c)
  unfolding apply_event lease_at
  leased_replays k job expiry there = ground (arith, key_for_job_id-own c k job v there)

  pub leased-IsValid :
      (k : Text) (job : TraceJob)
      → Map.get k c.jobs ≡ some job
      → IsValid (set_job k (lease_at job worker_id now_ms lease_ms) c)
  unfolding lease_at
  leased-IsValid k job there =
      set_job-IsValid c k (lease_at job worker_id now_ms lease_ms) v (v.own_key k job there)
        (v.own_id k job there)

-- The operations that name a job by its id and a token.
job_for_token_sound :
    (c : JobCatalog) (job_id : Text) (token : Option Text) {found : Text × TraceJob}
    → IsValid c
    → job_for_token c job_id token ≡ ok found
    → Map.get found.0 c.jobs ≡ some found.1
unfolding job_for_token
job_for_token_sound c job_id token v h = ground arith

-- A step that failed, or that logged an event and wrote one job over another of the same name.
pub data Step (event : JobEvent) (s s' : JobLog) : Type 0 where
  refused : s' ≡ s → Step event s s'
  wrote :
      (k : Text) (job new : TraceJob)
      → Map.get k s.catalog.jobs ≡ some job
      → new.idempotency_key ≡ job.idempotency_key
      → new.job_id ≡ job.job_id
      → new.kind ≡ job.kind
      → apply_event event s.catalog ≡ (ok tt, set_job k new s.catalog)
      → s' ≡ append_job_event event (set_job k new s.catalog) s
      → Step event s s'

pub Step-IsDurable :
    (event : JobEvent) (s s' : JobLog) → IsDurable s → Step event s s' → IsDurable s'
Step-IsDurable event s s' h (refused p) = rw p h
Step-IsDurable event s s' h (wrote k job new there own id same p q) = rw q (
    append-IsDurable s event (set_job k new s.catalog) h p (
      set_job-IsValid s.catalog k new h.valid (own ∙ h.valid.own_key k job there)
        (rw (same, id) (h.valid.own_id k job there))))

pub lease_job-IsDurable :
    (worker_id : WorkerId) (kind : JobKind) (now_ms lease_ms : ℕ) (s : JobLog)
    → IsDurable s
    → IsDurable (lease_job worker_id kind now_ms lease_ms s).1
unfolding lease_job
lease_job-IsDurable worker_id kind now_ms lease_ms s h =
    elim (lease_next_at-cases worker_id kind now_ms lease_ms s.catalog h.valid) [
      | inl (nothing, p) ↦ rw (p, lease_job) h
      | inr (k, job, found, there, is_kind, leasable, p) ↦ Step-IsDurable _ s _ h (
          wrote k job (lease_at job worker_id now_ms lease_ms) there (unfold lease_at in refl)
            (unfold lease_at in refl) (unfold lease_at in refl)
            (leased_replays worker_id kind now_ms lease_ms s.catalog h.valid k job
              (saturating_add now_ms lease_ms) there)
            (ground arith))
    ]

module _ (job_id : Text) (s : JobLog) (h : IsDurable s) where
  pub complete_job-Step :
      (token : Text) → Step (completed job_id token) s (complete_job job_id token s).1
  unfolding complete_job complete apply_event
  complete_job-Step token = elim (Result-cases (job_for_token s.catalog job_id (some token))) [
    | inl (e, p) ↦ refused (ground arith)
    | inr (found, p) ↦
        wrote found.0 found.1 (succeeded_version found.1)
          (job_for_token_sound s.catalog job_id (some token) h.valid p) refl refl refl
          (ground arith) (ground arith)
  ]

  pub fail_job-Step :
      (token : Option Text) (error : Text) (permanent : Bool) (now_ms : ℕ)
      → Step
          (failed job_id token error permanent now_ms)
          s
          (fail_job job_id token error permanent now_ms s).1
  unfolding fail_job fail apply_event
  fail_job-Step token error permanent now_ms =
      elim (Result-cases (job_for_token s.catalog job_id token)) [
        | inl (e, p) ↦ refused (ground arith)
        | inr (found, p) ↦
            wrote found.0 found.1 (failed_version found.1 error permanent now_ms)
              (job_for_token_sound s.catalog job_id token h.valid p) refl refl refl (ground arith)
              (ground arith)
      ]

  pub heartbeat_job-Step :
      (token : Text) (now_ms lease_ms : ℕ)
      → Step
          (heartbeat job_id token (lease_expiry now_ms lease_ms))
          s
          (heartbeat_job job_id token now_ms lease_ms s).1
  unfolding heartbeat_job Catalog.heartbeat_job apply_event
  heartbeat_job-Step token now_ms lease_ms =
      elim (Result-cases (job_for_token s.catalog job_id (some token))) [
        | inl (e, p) ↦ refused (ground arith)
        | inr (found, p) ↦
            wrote found.0 found.1 (renewed found.1 (lease_expiry now_ms lease_ms))
              (job_for_token_sound s.catalog job_id (some token) h.valid p) refl refl refl
              (ground arith) (ground arith)
      ]
