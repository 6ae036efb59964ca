-- ===== src/Queue/Steps.antt =====
-- The interleavings of agent/queue.py, callers, worker loop and job threads, as a step relation, with
-- the invariant of a state.
use zerra.Prelude.{
  ℕ, ◌≤◌, ◌≡◌, ◌≢◌, refl, String, true, false, Option, none, some, List, [], ◌∷◌, ◌++◌, arith,
  length, str_eq, str_eq_iff, str_mem, All, if◌then◌else◌, Option-cases, inl, inr,
}
use zerra.Prelude.Dict.{Dict, lookup, insert, lookup-insert_ne}
use zerra.ScanModels.{ScanConfig}
use zerra.Queue.{
  ScanJob, ScanQueue, JobStatus, ScanOutcome, enqueue, dispatch, start_job, end_job, close_job,
  shutdown, update_job,
}
use zerra.Queue.Jobs.{IsKeyed, IsKeyed-insert}

-- A generated identifier that no job, waiting or active, has.
pub record IsFresh (q : ScanQueue) (id : String) : Type 0 where
  pub unknown : lookup id q.jobs ≡ none
  pub not_waiting : str_mem id q.queue ≡ false
  pub not_active : str_mem id q.active ≡ false

-- One step of the queue. The steps of a job's thread are those of an active identifier.
pub data Step (F : Type 0) : ScanQueue → ScanQueue → Type 0 where
  enqueued :
      (q : ScanQueue) (config : ScanConfig) (repo_id : Option String) (id : String) (now : ℕ)
      → IsFresh q id
      → Step F q (enqueue q config repo_id id now).0
  dispatched : (q : ScanQueue) → Step F q (dispatch q).0
  job_started :
      (q : ScanQueue) (id : String) (now : ℕ)
      → str_mem id q.active ≡ true
      → Step F q (start_job q id now)
  job_ended :
      (q : ScanQueue) (id : String) (outcome : ScanOutcome F)
      → str_mem id q.active ≡ true
      → Step F q (end_job q id outcome)
  job_closed :
      (q : ScanQueue) (id : String) (now : ℕ)
      → str_mem id q.active ≡ true
      → Step F q (close_job q id now)
  was_shut_down : (q : ScanQueue) → Step F q (shutdown q)

pub data Reachable (F : Type 0) (q : ScanQueue) : ScanQueue → Type 0 where
  begins : Reachable F q q
  goes_on : (r s : ScanQueue) → Reachable F q r → Step F r s → Reachable F q s

-- The job that an identifier of the queue stands for: it is there, and it has not run.
abbrev pub IsWaiting : Dict ScanJob → String → Type 0
IsWaiting jobs id = (job : ScanJob) × (lookup id jobs ≡ some job) × (job.status ≡ JobStatus.queued)

-- No identifier stands twice.
abbrev pub IsDistinct : List String → Type 0
IsDistinct [] = Unit
IsDistinct (x ∷ xs) = (str_mem x xs ≡ false) × IsDistinct xs

pub record IsValid (q : ScanQueue) : Type 0 where
  pub bounded : length q.active ≤ q.max_workers
  pub keyed : IsKeyed q.jobs
  pub waiting : All (IsWaiting q.jobs) q.queue
  pub distinct : IsDistinct q.queue
  pub apart : All (λ (id : String). str_mem id q.active ≡ false) q.queue

pub All-both :
    {P Q R : String → Type 0} (xs : List String)
    → ((x : String) → P x → Q x → R x)
    → All P xs
    → All Q xs
    → All R xs
All-both [] f h k = tt
All-both (x ∷ xs) f h k = (f x h.0 k.0, All-both xs f h.1 k.1)

-- The elements of a list are not an element that it lacks.
pub All-other :
    (x : String) (xs : List String) → str_mem x xs ≡ false → All (λ (y : String). x ≢ y) xs
All-other x [] h = tt
All-other x (y ∷ ys) h =
    (λ same. ground (arith, str_eq_iff x y, same), All-other x ys (ground arith))

pub All-lookup_ne :
    (jobs : Dict ScanJob) (id : String) (job : ScanJob) (ids : List String)
    → str_mem id ids ≡ false
    → All (IsWaiting jobs) ids
    → All (IsWaiting (insert id job jobs)) ids
All-lookup_ne jobs id job ids absent h =
    All-both ids
      (λ other ne waiting.
        let (j, found, queued) = waiting in
        (j, rw (lookup-insert_ne id other job jobs ne) found, queued))
      (All-other id ids absent) h

str_mem-append :
    (x y : String) (xs : List String)
    → str_mem x (xs ++ y ∷ []) ≡ (if str_eq x y then true else str_mem x xs)
str_mem-append x y [] = ground arith
str_mem-append x y (z ∷ xs) = ground (arith, str_mem-append x y xs)

pub IsDistinct-append :
    (x : String) (xs : List String)
    → str_mem x xs ≡ false
    → IsDistinct xs
    → IsDistinct (xs ++ x ∷ [])
IsDistinct-append x [] h distinct = (refl, tt)
IsDistinct-append x (y ∷ ys) h distinct = (
  ground (arith, str_mem-append y x ys, str_eq_iff x y, str_eq_iff y x, distinct.0),
  IsDistinct-append x ys (ground arith) distinct.1,
)

-- An active identifier does not wait.
pub absent :
    (id : String) (active ids : List String)
    → All (λ (i : String). str_mem i active ≡ false) ids
    → str_mem id active ≡ true
    → str_mem id ids ≡ false
absent id active [] apart h = refl
absent id active (i ∷ ids) apart h =
    ground (arith, absent id active ids apart.1 h, str_eq_iff id i, apart.0)

lookup-named :
    (id : String) (jobs : Dict ScanJob) {job : ScanJob}
    → IsKeyed jobs
    → lookup id jobs ≡ some job
    → id ≡ job.id
lookup-named id [] keyed h = cc
lookup-named id ((k, j) ∷ jobs) {job} keyed h =
    ground (arith, lookup-named id jobs {job = job} keyed.1.1, str_eq_iff k id, keyed.0)

module _ (id : String) (change : ScanJob → ScanJob)
    (named : (job : ScanJob) → (change job).id ≡ job.id) (jobs : Dict ScanJob) where
  IsKeyed-update_job : IsKeyed jobs → IsKeyed (update_job id change jobs)
  unfolding update_job
  IsKeyed-update_job keyed = elim (Option-cases (lookup id jobs)) [
    | inl gone ↦ rw (gone, update_job) keyed
    | inr (job, found) ↦
        let own : id ≡ (change job).id = rw (named job) (lookup-named id jobs keyed found) in
        rw (found, update_job) (IsKeyed-insert id (change job) jobs own keyed)
  ]

  update_job-IsWaiting :
      (ids : List String)
      → str_mem id ids ≡ false
      → All (IsWaiting jobs) ids
      → All (IsWaiting (update_job id change jobs)) ids
  unfolding update_job
  update_job-IsWaiting ids h waiting = elim (Option-cases (lookup id jobs)) [
    | inl gone ↦ rw (gone, update_job) waiting
    | inr (job, found) ↦ rw (found, update_job) (All-lookup_ne jobs id (change job) ids h waiting)
  ]

  -- A thread that writes to its own job.
  pub update_job-IsValid :
      (q : ScanQueue)
      → q.jobs ≡ jobs
      → str_mem id q.active ≡ true
      → IsValid q
      → IsValid (record q { jobs = update_job id change q.jobs })
  update_job-IsValid q same running v = record {
    bounded = v.bounded;
    keyed = rw same (IsKeyed-update_job (rw same at v.keyed));
    waiting = rw same (
        update_job-IsWaiting q.queue (absent id q.active q.queue v.apart running)
          (rw same at v.waiting));
    distinct = v.distinct;
    apart = v.apart;
  }
