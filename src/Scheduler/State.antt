-- ===== src/Scheduler/State.antt =====
-- The state that `run_slice_scheduler` keeps beside the plan, and what it asks of its locks.
use softos_sdd_orchestrator.Prelude.{
  ℕ, ◌+◌, ◌-◌, String, Bool, Option, List, [], ◌∷◌, ◌==◌, if◌then◌else◌,
}
use softos_sdd_orchestrator.Table.{update}
use softos_sdd_orchestrator.Scheduler.Plan.{Job, Failure, WaitReason, slice_of}

-- `SchedulerConfig`, but for the number of threads, which only delays the workers.
pub record SchedulerConfig : Type 0 where
  pub per_repo_capacity : ℕ
  pub per_hot_area_capacity : ℕ
  pub lock_ttl_seconds : ℕ
  pub max_retries_execution : ℕ

-- The closures `_acquire_locks`, `_release_locks` and `_heartbeat_running_locks`, over the locks'
-- own state: `acquire` answers with the reason to wait, if it is refused.
pub record LockTable : Type 1 where
  pub Locks : Type 0
  pub acquire : (now : ℕ) → (running_jobs : List String) → Job → Locks → Option String × Locks
  pub release : Job → Locks → Locks
  pub heartbeat : (now : ℕ) → (running_jobs : List String) → Locks → Locks

-- An entry of `dlq`.
pub record DeadLetter : Type 0 where
  pub slice : String
  pub reason : Failure
  pub attempt : ℕ

pub record Sched (Locks : Type 0) : Type 0 where
  pub jobs : List Job
  pub running_jobs : List String
  pub running_by_repo : String → ℕ
  pub running_by_hot_area : String → ℕ
  pub futures : List (String × ℕ)
  pub completed : ℕ
  pub any_failed : Bool
  pub dlq : List DeadLetter
  pub waits : List (String × WaitReason)
  pub locks : Locks

-- counts[key] = counts.get(key, 0) + 1
abbrev pub increase : String → (String → ℕ) → String → ℕ
increase key counts k = if key == k then counts k + 1 else counts k

-- counts[key] = max(0, counts.get(key, 0) - 1)
abbrev pub decrease : String → (String → ℕ) → String → ℕ
decrease key counts k = if key == k then counts k - 1 else counts k

unfoldable pub increase_all : List String → (String → ℕ) → String → ℕ
increase_all [] counts = counts
increase_all (key ∷ keys) counts = increase_all keys (increase key counts)

unfoldable pub decrease_all : List String → (String → ℕ) → String → ℕ
decrease_all [] counts = counts
decrease_all (key ∷ keys) counts = decrease_all keys (decrease key counts)

-- running_jobs.discard(name)
unfoldable pub discard : String → List String → List String
discard name [] = []
discard name (x ∷ xs) = let rest = discard name xs in if x == name then rest else x ∷ rest

-- job[...] = ... for the job of this name
unfoldable pub set_job : {Locks : Type 0} → String → (Job → Job) → Sched Locks → Sched Locks
set_job name f s = record s { jobs = update slice_of name f s.jobs }
