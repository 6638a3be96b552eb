-- ===== src/Scheduler/Slack.antt =====
-- What is left to do for the jobs of a run: each operation of a round that starts, ends or retries a job
-- makes it smaller.
use softos_sdd_orchestrator.Prelude.{
  ℕ, zero, suc, ◌+◌, ◌-◌, ◌*◌, ◌≤◌, ◌<◌, String, true, ◌≡◌, some, List, arith, ◌||◌, if◌then◌else◌,
  Bool-cases, inl, inr, leb,
}
use softos_sdd_orchestrator.Prelude.Int.{ℤ, pos, negsuc}
use softos_sdd_orchestrator.Table.{update}
use softos_sdd_orchestrator.Table.Laws.{IsUnique}
use softos_sdd_orchestrator.Table.Count.{total, total-update}
use softos_sdd_orchestrator.Scheduler.Plan.{Job, WaitReason, slice_of}
use softos_sdd_orchestrator.Scheduler.State.{SchedulerConfig, LockTable, Sched, set_job}
use softos_sdd_orchestrator.Scheduler.Loop.{
  is_pending, is_running, is_passed, is_lost, find_job, mark_wait, start, settle_failure,
  settle_job, finish, mark_blocked,
}

-- Two steps for each attempt that is left, one for the end of the attempt that runs, one for the end of
-- the job.
abbrev pub slack : SchedulerConfig → Job → ℕ
slack config job =
    2 * (config.max_retries_execution + 1 - job.attempt)
    + (if is_running job then 1 else 0)
    + (if is_passed job || is_lost job then 0 else 1)

-- A job with less slack takes the place of another.
update-total :
    (weight : Job → ℕ) (f : Job → Job) (name : String) (job : Job) (jobs : List Job)
    → IsUnique slice_of jobs
    → find_job name jobs ≡ some job
    → weight (f job) < weight job
    → total weight (update slice_of name f jobs) < total weight jobs
update-total weight f name job jobs unique found less =
    omega (arith, total-update slice_of weight name f job jobs unique found, less)

module _ (L : LockTable) (config : SchedulerConfig) (pairs : List (String × String)) where
  open L use {Locks, acquire, release, heartbeat}

  -- The slack of all jobs.
  abbrev pub left : Sched Locks → ℕ
  left s = total (slack config) s.jobs

  settle_failure-left :
      (job : Job) (rc : ℤ) (s : Sched Locks)
      → IsUnique slice_of s.jobs
      → find_job job.slice s.jobs ≡ some job
      → is_running job ≡ true
      → left (settle_failure L config pairs job rc s) < left s
  unfolding settle_failure set_job
  settle_failure-left job rc s unique found on =
      elim (Bool-cases (leb (config.max_retries_execution + 1) job.attempt)) [
        | inl out ↦
            rw (out, settle_failure)
              (update-total (slack config) _ job.slice job s.jobs unique found (ground (arith, on)))
        | inr more ↦
            rw (more, settle_failure)
              (update-total (slack config) _ job.slice job s.jobs unique found (ground (arith, on)))
      ]

  settle_job-left :
      (job : Job) (worker : ℕ) (rc : ℤ) (s : Sched Locks)
      → IsUnique slice_of s.jobs
      → find_job job.slice s.jobs ≡ some job
      → is_running job ≡ true
      → left (settle_job L config pairs job worker rc s) < left s
  unfolding settle_job set_job
  settle_job-left job worker (pos zero) s unique found on =
      update-total (slack config) _ job.slice job s.jobs unique found (ground (arith, on))
  settle_job-left job worker (pos (suc n)) s unique found on =
      settle_failure-left job (pos (suc n)) s unique found on
  settle_job-left job worker (negsuc n) s unique found on =
      settle_failure-left job (negsuc n) s unique found on

  pub finish-left :
      (job : Job) (worker : ℕ) (rc : ℤ) (s : Sched Locks)
      → IsUnique slice_of s.jobs
      → find_job job.slice s.jobs ≡ some job
      → is_running job ≡ true
      → left (finish L config pairs job worker rc s) < left s
  unfolding finish
  finish-left job worker rc s unique found on = settle_job-left job worker rc _ unique found on

  pub mark_blocked-left :
      (name parent : String) (job : Job) (s : Sched Locks)
      → IsUnique slice_of s.jobs
      → find_job name s.jobs ≡ some job
      → is_pending job ≡ true
      → left (mark_blocked L config pairs name parent s) < left s
  unfolding mark_blocked set_job
  mark_blocked-left name parent job s unique found idle =
      update-total (slack config) _ name job s.jobs unique found (ground (arith, idle))

  pub start-left :
      (job : Job) (s : Sched Locks)
      → IsUnique slice_of s.jobs
      → find_job job.slice s.jobs ≡ some job
      → is_pending job ≡ true
      → job.attempt ≤ config.max_retries_execution
      → left (start L config pairs job s) < left s
  unfolding start set_job
  start-left job s unique found idle may =
      update-total (slack config) _ job.slice job s.jobs unique found (ground (arith, idle, may))

  pub mark_wait-left :
      (job : Job) (reason : WaitReason) (s : Sched Locks)
      → IsUnique slice_of s.jobs
      → find_job job.slice s.jobs ≡ some job
      → left (mark_wait L config pairs job reason s) ≡ left s
  unfolding mark_wait set_job
  mark_wait-left job reason s unique found =
      omega (arith, total-update slice_of (slack config) job.slice _ job s.jobs unique found)
