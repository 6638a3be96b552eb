-- ===== src/Scheduler/Loop.antt =====
-- The loop of `run_slice_scheduler`: one round under `state_lock`, and rounds in sequence. The
-- environment says which futures are done, with what return code, and what the clock reads.
use softos_sdd_orchestrator.Prelude.{
  ℕ, zero, ◌+◌, String, Bool, true, false, Option, none, some, List, [], ◌∷◌, ◌++◌, ◌&&◌, ◌==◌, leb,
  ltb, if◌then◌else◌,
}
use softos_sdd_orchestrator.Prelude.Int.{ℤ, pos}
use softos_sdd_orchestrator.Prelude.Lists.{length, contains}
use softos_sdd_orchestrator.Table.{insert, select}
use softos_sdd_orchestrator.Scheduler.Plan.{
  Job, pending, running, passed, failed, blocked, execution_failed, retry_scheduled,
  dependency_failed, WaitReason, dag_wait, repo_capacity, hot_area_capacity, overlap, lock_wait,
  slice_of, sorted_names,
}
use softos_sdd_orchestrator.Scheduler.State.{
  SchedulerConfig, LockTable, Sched, increase, decrease, increase_all, decrease_all, discard,
  set_job,
}

-- What the environment answers in one round.
pub record Round : Type 0 where
  pub heartbeat_time : ℕ
  pub result : String → Option ℤ
  pub acquire_time : String → ℕ

abbrev pub is_pending : Job → Bool
is_pending job = elim job.status [ pending ↦ true | _ ↦ false ]

abbrev pub is_running : Job → Bool
is_running job = elim job.status [ running ↦ true | _ ↦ false ]

abbrev pub is_passed : Job → Bool
is_passed job = elim job.status [ passed ↦ true | _ ↦ false ]

abbrev pub is_failed : Job → Bool
is_failed job = elim job.status [ failed ↦ true | _ ↦ false ]

abbrev pub is_blocked : Job → Bool
is_blocked job = elim job.status [ blocked ↦ true | _ ↦ false ]

-- str(status) in {"failed", "blocked"}
abbrev pub is_lost : Job → Bool
is_lost job = elim job.status [ failed ↦ true | blocked ↦ true | _ ↦ false ]

abbrev pub find_job : String → List Job → Option Job
find_job = select slice_of

-- The first parent that failed or is blocked.
unfoldable pub failed_parent : List Job → List String → Option String
failed_parent jobs [] = none
failed_parent jobs (parent ∷ parents) =
    let rest = failed_parent jobs parents in
    elim (find_job parent jobs) [
      | none ↦ rest
      | some job ↦ if is_lost job then some parent else rest
    ]

-- The first parent in the plan that has not passed.
unfoldable pub waiting_parent : List Job → List String → Option String
waiting_parent jobs [] = none
waiting_parent jobs (parent ∷ parents) =
    let rest = waiting_parent jobs parents in
    elim (find_job parent jobs) [
      | none ↦ rest
      | some job ↦ if is_passed job then rest else some parent
    ]

-- The first hot area at its capacity.
unfoldable pub full_area : ℕ → (String → ℕ) → List String → Option String
full_area capacity counts [] = none
full_area capacity counts (area ∷ areas) =
    let rest = full_area capacity counts areas in
    if leb capacity (counts area) then some area else rest

-- The first running job that a pair joins with this one.
unfoldable pub overlapping : String → List String → List (String × String) → Option String
overlapping slice running_jobs [] = none
overlapping slice running_jobs ((left, right) ∷ pairs) =
    let rest = overlapping slice running_jobs pairs in
    if slice == left && contains right running_jobs
    then some right
    else if slice == right && contains left running_jobs
    then some left
    else rest

module _ (L : LockTable) (config : SchedulerConfig) (pairs : List (String × String)) where
  open L use {Locks, acquire, release, heartbeat}

  -- The gates of `_can_run` before the locks.
  unfoldable pub gate : Sched Locks → Job → Option WaitReason
  gate s job = elim (waiting_parent s.jobs job.depends_on) [
    | some parent ↦ some (dag_wait parent)
    | none ↦
        if leb config.per_repo_capacity (s.running_by_repo job.repo)
        then some (repo_capacity job.repo)
        else elim (full_area config.per_hot_area_capacity s.running_by_hot_area job.hot_areas) [
          | some area ↦ some (hot_area_capacity area)
          | none ↦ elim (overlapping job.slice s.running_jobs pairs) [
            | some other ↦ some (overlap other)
            | none ↦ none
          ]
        ]
  ]

  -- _mark_wait
  unfoldable pub mark_wait : Job → WaitReason → Sched Locks → Sched Locks
  mark_wait job reason s =
      set_job job.slice (λ j. record j { wait_reasons = j.wait_reasons ++ reason ∷ [] })
        (record s { waits = insert (job.slice, reason) s.waits })

  -- The lines of the scheduling loop after `_can_run` has said yes.
  unfoldable pub start : Job → Sched Locks → Sched Locks
  start job s =
      set_job job.slice (λ j. record j { status = running; attempt = j.attempt + 1 })
        (record s {
          running_jobs = job.slice ∷ s.running_jobs;
          running_by_repo = increase job.repo s.running_by_repo;
          running_by_hot_area = increase_all job.hot_areas s.running_by_hot_area;
          futures = insert (job.slice, length s.futures + 1) s.futures;
        })

  -- `_can_run` behind the gates: take the locks, and start or wait.
  unfoldable pub try_locks : Job → Option String × Locks → Sched Locks → Sched Locks
  try_locks job (some reason, locks) s =
      mark_wait job (lock_wait reason) (record s { locks = locks })
  try_locks job (none, locks) s = start job (record s { locks = locks })

  unfoldable pub try_start : Round → Job → Sched Locks → Sched Locks
  try_start round job s = elim (gate s job) [
    | some reason ↦ mark_wait job reason s
    | none ↦ try_locks job (acquire (round.acquire_time job.slice) s.running_jobs job s.locks) s
  ]

  -- The body of the loop over `sorted(jobs)`.
  unfoldable pub visit : Round → String → Sched Locks → Sched Locks
  visit round name s = if contains name s.running_jobs then s else elim (find_job name s.jobs) [
    | none ↦ s
    | some job ↦ if is_pending job then try_start round job s else s
  ]

  unfoldable pub schedule : Round → List String → Sched Locks → Sched Locks
  schedule round [] s = s
  schedule round (name ∷ names) s = schedule round names (visit round name s)

  -- How a job is entered whose return code is not 0: as failed, or for another attempt.
  unfoldable pub settle_failure : Job → ℤ → Sched Locks → Sched Locks
  settle_failure job rc s =
      if leb (config.max_retries_execution + 1) job.attempt
      then set_job job.slice
          (λ j. record j { status = failed; failure_reason = some (execution_failed rc) })
          (record s {
            dlq =
                insert
                  (record {
                    slice = job.slice;
                    reason = execution_failed rc;
                    attempt = job.attempt;
                  })
                  s.dlq;
            completed = s.completed + 1;
            any_failed = true;
          })
      else set_job job.slice
          (λ j. record j { status = pending; failure_reason = some (retry_scheduled rc) }) s

  -- How a finished job is entered, by its return code.
  unfoldable pub settle_job : Job → ℕ → ℤ → Sched Locks → Sched Locks
  settle_job job worker_id (pos zero) s =
      set_job job.slice (λ j. record j { status = passed; worker = some worker_id })
        (record s { completed = s.completed + 1 })
  settle_job job worker_id rc s = settle_failure job rc s

  unfoldable pub finish : Job → ℕ → ℤ → Sched Locks → Sched Locks
  finish job worker_id rc s = settle_job job worker_id rc (record s {
    running_jobs = discard job.slice s.running_jobs;
    running_by_repo = decrease job.repo s.running_by_repo;
    running_by_hot_area = decrease_all job.hot_areas s.running_by_hot_area;
    locks = release job s.locks;
  })

  -- The loop over `done_futures`; a future that is not done stays in `futures`.
  unfoldable pub finalize : Round → List (String × ℕ) → Sched Locks → Sched Locks
  finalize round [] s = s
  finalize round ((name, worker_id) ∷ futures) s = elim (round.result name) [
    | none ↦ finalize round futures (record s { futures = insert (name, worker_id) s.futures })
    | some rc ↦ elim (find_job name s.jobs) [
      | none ↦ finalize round futures s
      | some job ↦ finalize round futures (finish job worker_id rc s)
    ]
  ]

  -- A pending job is blocked by its lost parent, and counted by the caller.
  unfoldable pub mark_blocked : String → String → Sched Locks → Sched Locks
  mark_blocked name parent s =
      set_job name
        (λ j. record j { status = blocked; failure_reason = some (dependency_failed parent) })
        (record s { completed = s.completed + 1; any_failed = true })

  -- `_mark_dependency_blocked`, with what its caller does with the count.
  unfoldable pub block : String → Sched Locks → Sched Locks
  block name s = elim (find_job name s.jobs) [
    | none ↦ s
    | some job ↦
        if is_pending job
        then elim (failed_parent s.jobs job.depends_on) [
          | none ↦ s
          | some parent ↦ mark_blocked name parent s
        ]
        else s
  ]

  unfoldable pub block_all : List String → Sched Locks → Sched Locks
  block_all [] s = s
  block_all (name ∷ names) s = block_all names (block name s)

  -- One pass of the `while` loop's body.
  unfoldable pub round_step : Round → Sched Locks → Sched Locks
  round_step round s =
      let names = sorted_names s.jobs in
      let beaten : Sched Locks = record s {
        locks = heartbeat round.heartbeat_time s.running_jobs s.locks;
      } in
      let finalized = finalize round s.futures (record beaten { futures = [] }) in
      schedule round names (block_all names finalized)

  -- `while completed < len(jobs)`, for as many rounds as the environment answers.
  unfoldable pub run : List Round → Sched Locks → Sched Locks
  run [] s = s
  run (round ∷ rounds) s =
      let rest = run rounds (round_step round s) in
      if ltb s.completed (length s.jobs) then rest else s
