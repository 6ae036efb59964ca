-- ===== src/Queue/Jobs.antt =====
-- The dict of jobs of agent/queue.py, and the trimming of the history.
use zerra.Prelude.{
  ℕ, ◌≡◌, ◌≢◌, refl, String, Bool, true, false, none, some, List, [], ◌∷◌, arith, ltb, leb, filter,
  length, take, zero, suc, str_eq, str_eq_iff, All, Bool-cases, inl, inr,
}
use zerra.Prelude.Dict.{Dict, lookup, insert, erase, values, lookup-insert}
use zerra.Queue.{ScanJob, is_done, insert_job, sort_jobs, remove_jobs, to_remove, trim_history}

-- Every job stands under its own identifier, and no identifier stands twice.
abbrev pub IsKeyed : Dict ScanJob → Type 0
IsKeyed [] = Unit
IsKeyed ((k, j) ∷ jobs) = (k ≡ j.id) × ((lookup k jobs ≡ none) × IsKeyed jobs)

pub IsKeyed-insert :
    (k : String) (j : ScanJob) (jobs : Dict ScanJob)
    → k ≡ j.id
    → IsKeyed jobs
    → IsKeyed (insert k j jobs)
IsKeyed-insert k j [] named keyed = (named, (refl, tt))
IsKeyed-insert k j ((i, w) ∷ jobs) named keyed = elim (Bool-cases (str_eq i k)) [
  | inl same ↦
      let eq : i ≡ k = (str_eq_iff i k).0 same in rw same (rw eq named, (keyed.1.0, keyed.1.1))
  | inr other ↦ rw other (
    keyed.0,
    (
      ground (arith, lookup-insert k i j jobs, str_eq_iff i k, str_eq_iff k i, keyed.1.0),
      IsKeyed-insert k j jobs named keyed.1.1,
    ),
  )
]

lookup-erase-none :
    (k i : String) (jobs : Dict ScanJob) → lookup i jobs ≡ none → lookup i (erase k jobs) ≡ none
lookup-erase-none k i [] h = refl
lookup-erase-none k i ((x, w) ∷ jobs) h = ground (arith, lookup-erase-none k i jobs)

lookup-erase_ne :
    (k i : String) (jobs : Dict ScanJob) → k ≢ i → lookup i (erase k jobs) ≡ lookup i jobs
lookup-erase_ne k i [] ne = refl
lookup-erase_ne k i ((x, w) ∷ jobs) ne =
    ground (arith, lookup-erase_ne k i jobs ne, str_eq_iff x k, str_eq_iff x i)

IsKeyed-erase : (k : String) (jobs : Dict ScanJob) → IsKeyed jobs → IsKeyed (erase k jobs)
IsKeyed-erase k [] keyed = tt
IsKeyed-erase k ((i, w) ∷ jobs) keyed = elim (Bool-cases (str_eq i k)) [
  | inl same ↦ rw same keyed.1.1
  | inr other ↦
      rw other (keyed.0, (lookup-erase-none k i jobs keyed.1.0, IsKeyed-erase k jobs keyed.1.1))
]

IsKeyed-remove_jobs :
    (js : List ScanJob) (jobs : Dict ScanJob) → IsKeyed jobs → IsKeyed (remove_jobs js jobs)
unfolding remove_jobs
IsKeyed-remove_jobs [] jobs keyed = keyed
IsKeyed-remove_jobs (j ∷ js) jobs keyed =
    IsKeyed-remove_jobs js (erase j.id jobs) (IsKeyed-erase j.id jobs keyed)

-- A job that is stored under its identifier.
abbrev IsStored : Dict ScanJob → ScanJob → Type 0
IsStored jobs j = lookup j.id jobs ≡ some j

All-map :
    {P Q : ScanJob → Type 0} (js : List ScanJob) → ((j : ScanJob) → P j → Q j) → All P js → All Q js
All-map [] f h = tt
All-map (j ∷ js) f h = (f j h.0, All-map js f h.1)

All-values : (jobs : Dict ScanJob) → IsKeyed jobs → All (IsStored jobs) (values jobs)
All-values [] keyed = tt
All-values ((k, j) ∷ jobs) keyed =
    let named : str_eq k j.id ≡ true = ground (arith, str_eq_iff k j.id, keyed.0) in
    (
      rw named refl,
      All-map (values jobs) (λ i stored. ground (arith, str_eq_iff k i.id, keyed.1.0))
          (All-values jobs keyed.1.1),
    )

module _ (P : ScanJob → Type 0) where
  All-filter :
      (test : ScanJob → Bool) (js : List ScanJob)
      → All P js
      → All (λ (j : ScanJob). P j × (test j ≡ true)) (filter test js)
  All-filter test [] h = tt
  All-filter test (j ∷ js) h = elim (Bool-cases (test j)) [
    | inl kept ↦ rw kept ((h.0, kept), All-filter test js h.1)
    | inr dropped ↦ rw dropped (All-filter test js h.1)
  ]

  All-insert_job : (j : ScanJob) (js : List ScanJob) → P j → All P js → All P (insert_job j js)
  unfolding insert_job
  All-insert_job j [] h hs = (h, tt)
  All-insert_job j (i ∷ js) h hs = elim (Bool-cases (ltb i.queued_at j.queued_at)) [
    | inl earlier ↦ rw earlier (hs.0, All-insert_job j js h hs.1)
    | inr later ↦ rw later (h, hs)
  ]

  All-sort_jobs : (js : List ScanJob) → All P js → All P (sort_jobs js)
  unfolding sort_jobs
  All-sort_jobs [] h = tt
  All-sort_jobs (j ∷ js) h = All-insert_job j (sort_jobs js) h.0 (All-sort_jobs js h.1)

  All-take : (n : ℕ) (js : List ScanJob) → All P js → All P (take n js)
  All-take zero js h = tt
  All-take (suc n) [] h = tt
  All-take (suc n) (j ∷ js) h = (h.0, All-take n js h.1)

-- What is removed is stored and finished.
All-to_remove :
    (history_size : ℕ) (jobs : Dict ScanJob)
    → IsKeyed jobs
    → All
        (λ (j : ScanJob). IsStored jobs j × (is_done j.status ≡ true))
        (to_remove history_size jobs)
unfolding to_remove
All-to_remove history_size jobs keyed = All-take _ _ _ (
    All-sort_jobs _ _ (
      All-filter (IsStored jobs) (λ (j : ScanJob). is_done j.status) (values jobs)
        (All-values jobs keyed)))

lookup-remove_jobs :
    (id : String) (js : List ScanJob) (jobs : Dict ScanJob)
    → All (λ (j : ScanJob). j.id ≢ id) js
    → lookup id (remove_jobs js jobs) ≡ lookup id jobs
unfolding remove_jobs
lookup-remove_jobs id [] jobs h = refl
lookup-remove_jobs id (j ∷ js) jobs h =
    rw (lookup-remove_jobs id js (erase j.id jobs) h.1) (lookup-erase_ne j.id id jobs h.0)

-- In a dict that holds each job under its own identifier, and no identifier twice, trimming keeps
-- every job that is waiting or running.
pub trim_history-keeps :
    (history_size : ℕ) (jobs : Dict ScanJob) (id : String) {job : ScanJob}
    → IsKeyed jobs
    → lookup id jobs ≡ some job
    → is_done job.status ≡ false
    → lookup id (trim_history history_size jobs) ≡ some job
unfolding trim_history
trim_history-keeps history_size jobs id {job} keyed found waiting =
    let others =
      All-map {Q = λ (j : ScanJob). j.id ≢ id} (to_remove history_size jobs)
        (λ j stored same. clash j stored.0 stored.1 same) (All-to_remove history_size jobs keyed) in
    ground (arith, lookup-remove_jobs id (to_remove history_size jobs) jobs others, found)
  where
    clash : (j : ScanJob) → lookup j.id jobs ≡ some j → is_done j.status ≡ true → j.id ≡ id → ⊥
    clash j stored done same =
        let again : lookup id jobs ≡ some j = rw (← same) stored in ground arith

pub trim_history-IsKeyed :
    (history_size : ℕ) (jobs : Dict ScanJob)
    → IsKeyed jobs
    → IsKeyed (trim_history history_size jobs)
unfolding trim_history
trim_history-IsKeyed history_size jobs keyed = elim (Bool-cases (leb (length jobs) history_size)) [
  | inl small ↦ rw small keyed
  | inr large ↦ rw large (IsKeyed-remove_jobs (to_remove history_size jobs) jobs keyed)
]
