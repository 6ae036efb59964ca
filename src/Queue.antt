-- ===== src/Queue.antt =====
-- The scan queue, agent/queue.py: its state under the lock, and the steps of the callers, of the
-- worker loop and of the job threads. A scan's outcome is a parameter of the step that ends it.
pub mod Jobs
pub mod Steps
pub mod Invariant
use zerra.Prelude.{
  ℕ, ◌+◌, ◌-◌, String, Bool, true, false, not, ◌&&◌, Option, none, some, List, [], ◌∷◌, ◌++◌, map,
  ltb, leb, if◌then◌else◌, filter, length, take, is_nil, str_eq, str_mem, truthy,
}
use mathlib.Core.List.{reverse}
use zerra.Prelude.Dict.{Dict, lookup, insert, erase, values, get_or}
use zerra.ScanModels.{ScanConfig, ScanResult, is_completed}

pub data JobStatus : Type 0 where
  queued running completed failed : JobStatus

abbrev job_status_value : JobStatus → String
job_status_value JobStatus.queued = "queued"
job_status_value JobStatus.running = "running"
job_status_value JobStatus.completed = "completed"
job_status_value JobStatus.failed = "failed"

-- `status in (JobStatus.COMPLETED, JobStatus.FAILED)`.
abbrev is_done : JobStatus → Bool
is_done JobStatus.completed = true
is_done JobStatus.failed = true
is_done _ = false

pub record ScanJob : Type 0 where
  pub id : String
  pub config : ScanConfig
  pub repo_id : Option String
  pub status : JobStatus
  pub scan_id : Option String
  pub error : Option String
  pub queued_at : ℕ
  pub started_at : Option ℕ
  pub completed_at : Option ℕ

-- In microseconds, where both times are there.
duration : ScanJob → Option ℕ
duration job = elim job.started_at [
  | none ↦ none
  | some start ↦ elim job.completed_at [ none ↦ none | some end_ ↦ some (end_ - start) ]
]

pub record ScanQueue : Type 0 where
  pub max_workers : ℕ
  pub jobs : Dict ScanJob
  pub queue : List String
  pub active : List String
  pub history_size : ℕ
  pub is_shutdown : Bool

unfoldable pub init_queue : ℕ → ℕ → ScanQueue
init_queue max_workers history_size = record {
  max_workers = max_workers;
  jobs = [];
  queue = [];
  active = [];
  history_size = history_size;
  is_shutdown = false;
}

-- `sort(key=queued_at)`: jobs of the same time keep their order.
insert_job : ScanJob → List ScanJob → List ScanJob
insert_job job [] = job ∷ []
insert_job job (j ∷ jobs) =
    if ltb j.queued_at job.queued_at then j ∷ insert_job job jobs else job ∷ j ∷ jobs

sort_jobs : List ScanJob → List ScanJob
sort_jobs [] = []
sort_jobs (j ∷ jobs) = insert_job j (sort_jobs jobs)

-- `for j in to_remove: self._jobs.pop(j.id, None)`.
remove_jobs : List ScanJob → Dict ScanJob → Dict ScanJob
remove_jobs [] jobs = jobs
remove_jobs (j ∷ to_remove) jobs = remove_jobs to_remove (erase j.id jobs)

to_remove : ℕ → Dict ScanJob → List ScanJob
to_remove history_size jobs =
    take (length jobs - history_size)
      (sort_jobs (filter (λ (j : ScanJob). is_done j.status) (values jobs)))

pub trim_history : ℕ → Dict ScanJob → Dict ScanJob
trim_history history_size jobs =
    if leb (length jobs) history_size then jobs else remove_jobs (to_remove history_size jobs) jobs

abbrev pub new_job : ScanConfig → Option String → String → ℕ → ScanJob
new_job config repo_id id now = record {
  id = id;
  config = config;
  repo_id = repo_id;
  status = JobStatus.queued;
  scan_id = none;
  error = none;
  queued_at = now;
  started_at = none;
  completed_at = none;
}

-- `enqueue`, with the new identifier and the time.
pub enqueue : ScanQueue → ScanConfig → Option String → String → ℕ → ScanQueue × ScanJob
enqueue q config repo_id id now =
    let job = new_job config repo_id id now in
    (
      record q {
        jobs = trim_history q.history_size (insert id job q.jobs);
        queue = q.queue ++ id ∷ [];
      },
      job,
    )

get_job : ScanQueue → String → Option ScanJob
get_job q job_id = lookup job_id q.jobs

-- `sort(reverse=True)`: the newest first, and jobs of the same time in their order.
insert_newest : ScanJob → List ScanJob → List ScanJob
insert_newest job [] = job ∷ []
insert_newest job (j ∷ jobs) =
    if ltb job.queued_at j.queued_at then j ∷ insert_newest job jobs else job ∷ j ∷ jobs

newest_first : List ScanJob → List ScanJob
unfolding insert_newest
newest_first [] = []
newest_first (j ∷ jobs) = insert_newest j (newest_first jobs)

list_jobs : ScanQueue → ℕ → List ScanJob
unfolding newest_first
list_jobs q limit = take limit (newest_first (values q.jobs))

active_count : ScanQueue → ℕ
active_count q = length q.active

queued_count : ScanQueue → ℕ
queued_count q = length q.queue

count_status : Dict ℕ → List ScanJob → Dict ℕ
count_status by_status [] = by_status
count_status by_status (j ∷ jobs) =
    let name = job_status_value j.status in
    count_status (insert name (get_or name 0 by_status + 1) by_status) jobs

-- `stats`: the total, the active, the queued, the counts by status, the bound.
stats : ScanQueue → ℕ × (ℕ × (ℕ × (Dict ℕ × ℕ)))
unfolding count_status
stats q = (
  length q.jobs,
  (length q.active, (length q.queue, (count_status [] (values q.jobs), q.max_workers))),
)

pub shutdown : ScanQueue → ScanQueue
shutdown q = record q { is_shutdown = true }

-- `set.add` and `set.discard`.
set_add : String → List String → List String
set_add x xs = if str_mem x xs then xs else x ∷ xs

set_discard : String → List String → List String
set_discard x xs = filter (λ (y : String). not (str_eq x y)) xs

-- One round of `_worker_loop`: the job that is taken, if there is room for one.
pub dispatch : ScanQueue → ScanQueue × Option String
dispatch q = elim q.queue [
  | [] ↦ (q, none)
  | id ∷ ids ↦
      if not q.is_shutdown && ltb (length q.active) q.max_workers
      then (record q { queue = ids; active = set_add id q.active }, some id)
      else (q, none)
]

-- What the scan of a job came to: its result, or the text of an exception.
pub data ScanOutcome (F : Type 0) : Type 0 where
  scanned : ScanResult F → ScanOutcome F
  raised : String → ScanOutcome F

-- A job's thread writes to the job that it looked up; one that is gone from the dict stays gone.
pub update_job : String → (ScanJob → ScanJob) → Dict ScanJob → Dict ScanJob
update_job id change jobs = elim (lookup id jobs) [
  | none ↦ jobs
  | some job ↦ insert id (change job) jobs
]

abbrev started : ℕ → ScanJob → ScanJob
started now job = record job { status = JobStatus.running; started_at = some now }

abbrev ended : {F : Type 0} → ScanOutcome F → ScanJob → ScanJob
ended (scanned r) job = record job {
  scan_id = some r.id;
  status = if is_completed r.status then JobStatus.completed else JobStatus.failed;
  error = if truthy r.error_message then r.error_message else job.error;
}
ended (raised text) job = record job { status = JobStatus.failed; error = some text }

abbrev pub closed : ℕ → ScanJob → ScanJob
closed now job = record job { completed_at = some now }

-- The three steps of `_run_job`: before the scan, after it, and the `finally` block.
pub start_job : ScanQueue → String → ℕ → ScanQueue
start_job q id now = record q { jobs = update_job id (started now) q.jobs }

pub end_job : {F : Type 0} → ScanQueue → String → ScanOutcome F → ScanQueue
end_job q id outcome = record q { jobs = update_job id (ended outcome) q.jobs }

pub close_job : ScanQueue → String → ℕ → ScanQueue
close_job q id now = record q {
  jobs = update_job id (closed now) q.jobs;
  active = set_discard id q.active;
}
