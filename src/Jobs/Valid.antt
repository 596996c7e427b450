-- ===== src/Jobs/Valid.antt =====
-- The catalog's invariant: its keys rise, and each job stands under its own key with the id that
-- the key and the kind make.
use tracedb.Base.{
  ◌==◌, drop, ap, Text, text_eq, text_eq_iff, text_eq_refl, Bool, true, not, some, [], ◌∷◌, ◌++◌,
  ◌≡◌, refl, sym, ◌∙◌, arith, all, Bool-cases, inl, inr,
}
use tracedb.Base.Map
use tracedb.Base.Map.{Map}
use tracedb.Jobs.Job.{TraceJob, JobKind, kind_name, job_id_for}
use tracedb.Jobs.Catalog.{JobCatalog, find_key, set_job, default_catalog, key_for_job_id}

pub record IsValid (c : JobCatalog) : Type 0 where
  pub sorted : Map.IsSorted c.jobs
  pub own_key : (k : Text) (job : TraceJob) → Map.get k c.jobs ≡ some job → job.idempotency_key ≡ k
  pub own_id :
      (k : Text) (job : TraceJob) → Map.get k c.jobs ≡ some job → job.job_id ≡ job_id_for job.kind k

pub default-IsValid : IsValid default_catalog
unfolding Map.get
default-IsValid = record {
  sorted = tt;
  own_key = λ k job p. absurd (cc);
  own_id = λ k job p. absurd (cc);
}

pub set_job-IsValid :
    (c : JobCatalog) (k : Text) (job : TraceJob)
    → IsValid c
    → job.idempotency_key ≡ k
    → job.job_id ≡ job_id_for job.kind k
    → IsValid (set_job k job c)
set_job-IsValid c k job v own id = record {
  sorted = Map.insert-IsSorted k job c.jobs v.sorted;
  own_key = λ j other p.
      ground (arith, Map.get-insert j k job c.jobs, text_eq_iff j k, v.own_key j other);
  own_id =
      λ j other p. ground (arith, Map.get-insert j k job c.jobs, text_eq_iff j k, v.own_id j other);
}

-- What a search finds is in the map and passes, and it finds where something passes.
pub find_key_sound :
    (p : TraceJob → Bool) (m : Map TraceJob) {k : Text}
    → Map.IsSorted m
    → find_key p m ≡ some k
    → (job : TraceJob) × (Map.get k m ≡ some job) × (p job ≡ true)
unfolding find_key Map.get
find_key_sound p [] h e = absurd (cc)
find_key_sound p ((j, job) ∷ m) {k} h e = elim (Bool-cases (p job)) [
  | inl passes ↦ (job, ground (arith, text_eq_iff k j), passes)
  | inr fails ↦
      let (other, there, passes) = find_key_sound p m {k = k} h.1 (rw fails at e) in
      (other, ground (arith, Map.get-Above j m h.0, text_eq_iff k j), passes)
]

pub find_key_complete :
    (p : TraceJob → Bool) (m : Map TraceJob) (k : Text) {job : TraceJob}
    → Map.get k m ≡ some job
    → p job ≡ true
    → (j : Text) × (find_key p m ≡ some j)
unfolding find_key Map.get
find_key_complete p [] k e h = absurd (cc)
find_key_complete p ((j, other) ∷ m) k {job} e h = elim (Bool-cases (p other)) [
  | inl passes ↦ (j, rw passes)
  | inr fails ↦
      let (i, found) = find_key_complete p m k {job = job} (ground arith) h in (i, rw fails found)
]

-- A kind's name has no colon, so the id gives the key back.
no_colon : Text → Bool
no_colon s = all (λ c. not (c == 58)) s

kind_name-no_colon : (kind : JobKind) → no_colon (kind_name kind) ≡ true
unfolding no_colon kind_name
kind_name-no_colon JobKind.generate_embedding = refl
kind_name-no_colon _ = refl

colon_splits :
    (s s' r r' : Text)
    → no_colon s ≡ true
    → no_colon s' ≡ true
    → s ++ (58 ∷ r) ≡ s' ++ (58 ∷ r')
    → r ≡ r'
unfolding no_colon
colon_splits [] [] r r' h h' p = ground arith
colon_splits [] (b ∷ s') r r' h h' p = ground arith
colon_splits (a ∷ s) [] r r' h h' p = ground arith
colon_splits (a ∷ s) (b ∷ s') r r' h h' p = ground (arith, colon_splits s s' r r')

job_id_for-drop :
    (kind : JobKind) (k : Text) → drop 4 (job_id_for kind k) ≡ kind_name kind ++ (58 ∷ k)
unfolding job_id_for
job_id_for-drop kind k = refl

pub job_id_for-injective :
    (kind kind' : JobKind) (k k' : Text) → job_id_for kind k ≡ job_id_for kind' k' → k ≡ k'
job_id_for-injective kind kind' k k' p =
    colon_splits (kind_name kind) (kind_name kind') k k' (kind_name-no_colon kind)
      (kind_name-no_colon kind')
      (sym (job_id_for-drop kind k) ∙ (ap (λ (t : Text). drop 4 t) p ∙ job_id_for-drop kind' k'))

-- The lookup by id finds the job's own key.
pub key_for_job_id-own :
    (c : JobCatalog) (k : Text) (job : TraceJob)
    → IsValid c
    → Map.get k c.jobs ≡ some job
    → key_for_job_id c job.job_id ≡ some k
unfolding key_for_job_id
key_for_job_id-own c k job v e =
    let same_id = λ (j : TraceJob). text_eq j.job_id job.job_id in
    let (j, found) = find_key_complete same_id c.jobs k {job = job} e (text_eq_refl job.job_id) in
    let (other, there, same) = find_key_sound same_id c.jobs {k = j} v.sorted found in
    let ids : job_id_for other.kind j ≡ job_id_for job.kind k =
      sym (v.own_id j other there)
      ∙ ((text_eq_iff other.job_id job.job_id).0 same ∙ v.own_id k job e) in
    rw (← job_id_for-injective other.kind job.kind j k ids) found
