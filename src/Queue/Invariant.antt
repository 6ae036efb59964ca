-- ===== src/Queue/Invariant.antt =====
-- The steps of agent/queue.py and its invariant.
use zerra.Prelude.{
  ℕ, ◌≤◌, ◌≡◌, ◌≢◌, refl, sym, ◌∙◌, String, true, false, not, ◌&&◌, Option, List, [], ◌∷◌, ◌++◌,
  arith, ltb, length, str_eq, str_eq_iff, str_mem, All, All-append, Bool-cases, inl, inr,
}
use zerra.Prelude.Dict.{insert, lookup-insert_self}
use zerra.ScanModels.{ScanConfig}
use zerra.Queue.{
  ScanJob, ScanQueue, ScanOutcome, new_job, init_queue, enqueue, dispatch, start_job, end_job,
  close_job, shutdown, set_add, set_discard, started, ended, closed,
}
use zerra.Queue.Jobs.{IsKeyed-insert, trim_history-keeps, trim_history-IsKeyed}
use zerra.Queue.Steps.{
  IsFresh, Step, Reachable, IsWaiting, IsValid, IsDistinct, All-both, All-other, All-lookup_ne,
  IsDistinct-append, update_job-IsValid,
}

init_queue-IsValid : (max_workers history_size : ℕ) → IsValid (init_queue max_workers history_size)
unfolding init_queue
init_queue-IsValid max_workers history_size = record {
  bounded = omega arith;
  keyed = tt;
  waiting = tt;
  distinct = tt;
  apart = tt;
}

enqueue-IsValid :
    (q : ScanQueue) (config : ScanConfig) (repo_id : Option String) (id : String) (now : ℕ)
    → IsFresh q id
    → IsValid q
    → IsValid (enqueue q config repo_id id now).0
unfolding enqueue
enqueue-IsValid q config repo_id id now fresh v =
    let job = new_job config repo_id id now in
    let jobs = insert id job q.jobs in
    let keyed = IsKeyed-insert id job q.jobs refl v.keyed in
    let waiting =
      All-append (IsWaiting jobs) q.queue (id ∷ [])
        (All-lookup_ne q.jobs id job q.queue fresh.not_waiting v.waiting)
        ((job, lookup-insert_self id job q.jobs, refl), tt) in
    record {
      bounded = v.bounded;
      keyed = trim_history-IsKeyed q.history_size jobs keyed;
      waiting =
          All-both {P = IsWaiting jobs} {Q = IsWaiting jobs} (q.queue ++ id ∷ [])
            (λ other w _.
              let (j, found, queued) = w in
              (
                j,
                trim_history-keeps q.history_size jobs other keyed found (rw queued refl),
                queued,
              ))
            waiting waiting;
      distinct = IsDistinct-append id q.queue fresh.not_waiting v.distinct;
      apart =
          All-append (λ (i : String). str_mem i q.active ≡ false) q.queue (id ∷ []) v.apart
            (fresh.not_active, tt);
    }

differs : (x y : String) → x ≢ y → str_eq y x ≡ false
differs x y ne = elim (Bool-cases (str_eq y x)) [
  | inl same ↦ absurd (ne (sym ((str_eq_iff y x).0 same)))
  | inr other ↦ other
]

-- The round of the worker loop, by what waits.
dispatch-IsValid_with :
    (q : ScanQueue) (ids : List String) → q.queue ≡ ids → IsValid q → IsValid (dispatch q).0
unfolding dispatch set_add
dispatch-IsValid_with q [] eq v = rw (eq, dispatch) v
dispatch-IsValid_with q (id ∷ ids) eq v =
    elim (Bool-cases (not q.is_shutdown && ltb (length q.active) q.max_workers)) [
      | inl room ↦
          let waiting : All (IsWaiting q.jobs) (id ∷ ids) = rw eq at v.waiting in
          let (new, distinct) = rw eq at v.distinct in
          let apart : All (λ (i : String). str_mem i q.active ≡ false) (id ∷ ids) =
            rw eq at v.apart in
          rw (eq, dispatch, room, apart.0)
            (record {
              bounded = ground arith;
              keyed = v.keyed;
              waiting = waiting.1;
              distinct = distinct;
              apart =
                  All-both {Q = λ (i : String). id ≢ i} ids
                    (λ other free ne. ground (arith, differs id other ne, free)) apart.1
                    (All-other id ids new);
            })
      | inr full ↦ rw (eq, dispatch, full) v
    ]

length-set_discard-le : (x : String) (xs : List String) → length (set_discard x xs) ≤ length xs
unfolding set_discard
length-set_discard-le x [] = omega arith
length-set_discard-le x (y ∷ ys) = ground (arith, length-set_discard-le x ys)

str_mem-set_discard :
    (x y : String) (xs : List String) → str_mem y xs ≡ false → str_mem y (set_discard x xs) ≡ false
unfolding set_discard
str_mem-set_discard x y [] h = refl
str_mem-set_discard x y (z ∷ zs) h = ground (arith, str_mem-set_discard x y zs)

close_job-IsValid :
    (q : ScanQueue) (id : String) (now : ℕ)
    → str_mem id q.active ≡ true
    → IsValid q
    → IsValid (close_job q id now)
unfolding close_job
close_job-IsValid q id now running v =
    let w = update_job-IsValid id (closed now) (λ job. refl) q.jobs q refl running v in
    record {
      bounded = omega (arith, v.bounded, length-set_discard-le id q.active);
      keyed = w.keyed;
      waiting = w.waiting;
      distinct = v.distinct;
      apart =
          All-both {Q = λ (i : String). str_mem i q.active ≡ false} q.queue
            (λ i free _. str_mem-set_discard id i q.active free) v.apart v.apart;
    }

ended-id : {F : Type 0} (outcome : ScanOutcome F) (job : ScanJob) → (ended outcome job).id ≡ job.id
ended-id (ScanOutcome.scanned r) job = refl
ended-id (ScanOutcome.raised text) job = refl

-- Every step keeps the invariant.
Step-IsValid : {F : Type 0} (q r : ScanQueue) → Step F q r → IsValid q → IsValid r
unfolding start_job end_job shutdown
Step-IsValid _ _ (Step.enqueued q config repo_id id now fresh) v =
    enqueue-IsValid q config repo_id id now fresh v
Step-IsValid _ _ (Step.dispatched q) v = dispatch-IsValid_with q q.queue refl v
Step-IsValid _ _ (Step.job_started q id now running) v =
    update_job-IsValid id (started now) (λ job. refl) q.jobs q refl running v
Step-IsValid _ _ (Step.job_ended q id outcome running) v =
    update_job-IsValid id (ended outcome) (ended-id outcome) q.jobs q refl running v
Step-IsValid _ _ (Step.job_closed q id now running) v = close_job-IsValid q id now running v
Step-IsValid _ _ (Step.was_shut_down q) v = record {
  bounded = v.bounded;
  keyed = v.keyed;
  waiting = v.waiting;
  distinct = v.distinct;
  apart = v.apart;
}

dispatch-max_workers :
    (q : ScanQueue) (ids : List String) → q.queue ≡ ids → (dispatch q).0.max_workers ≡ q.max_workers
unfolding dispatch
dispatch-max_workers q [] eq = rw (eq, dispatch) refl
dispatch-max_workers q (id ∷ ids) eq =
    elim (Bool-cases (not q.is_shutdown && ltb (length q.active) q.max_workers)) [
      | inl room ↦ rw (eq, dispatch, room) refl
      | inr full ↦ rw (eq, dispatch, full) refl
    ]

Step-max_workers : {F : Type 0} (q r : ScanQueue) → Step F q r → r.max_workers ≡ q.max_workers
unfolding enqueue start_job end_job close_job shutdown
Step-max_workers _ _ (Step.enqueued q config repo_id id now fresh) = refl
Step-max_workers _ _ (Step.dispatched q) = dispatch-max_workers q q.queue refl
Step-max_workers _ _ (Step.job_started q id now running) = refl
Step-max_workers _ _ (Step.job_ended q id outcome running) = refl
Step-max_workers _ _ (Step.job_closed q id now running) = refl
Step-max_workers _ _ (Step.was_shut_down q) = refl

reachable-IsValid :
    {F : Type 0} (q r : ScanQueue)
    → Reachable F q r
    → IsValid q
    → IsValid r × (r.max_workers ≡ q.max_workers)
reachable-IsValid q _ Reachable.begins v = (v, refl)
reachable-IsValid q _ (Reachable.goes_on r s before step) v =
    let (w, same) = reachable-IsValid q r before v in
    (Step-IsValid r s step w, Step-max_workers r s step ∙ same)

init_queue-max_workers :
    (max_workers history_size : ℕ) → (init_queue max_workers history_size).max_workers ≡ max_workers
unfolding init_queue
init_queue-max_workers max_workers history_size = refl

-- From an empty queue, however callers, the worker loop and the job threads interleave, no more jobs
-- are active than there are workers, no job waits twice or while it is active, and every waiting job
-- is still there and has not run: trimming the history never loses it.
pub every_interleaving :
    {F : Type 0} (max_workers history_size : ℕ) (q : ScanQueue)
    → Reachable F (init_queue max_workers history_size) q
    → (length q.active ≤ max_workers)
      × IsDistinct q.queue
      × All (λ (id : String). str_mem id q.active ≡ false) q.queue
      × All (IsWaiting q.jobs) q.queue
every_interleaving max_workers history_size q steps =
    let (v, same) =
      reachable-IsValid (init_queue max_workers history_size) q steps
        (init_queue-IsValid max_workers history_size) in
    (
      rw (← (same ∙ init_queue-max_workers max_workers history_size)) v.bounded,
      v.distinct,
      v.apart,
      v.waiting,
    )
