-- ===== src/Scheduler/Idle.antt =====
-- The semantic locks when a job does not run: who may own one.
use softos_sdd_orchestrator.Prelude.{
  ℕ, zero, suc, ◌+◌, String, ◌≡◌, refl, sym, ap, subst, Option, none, some, List, [], ◌∷◌,
  Bool-cases, Option-cases, inl, inr, leb,
}
use softos_sdd_orchestrator.Prelude.Int.{ℤ, pos, negsuc}
use softos_sdd_orchestrator.Scheduler.Plan.{Job, WaitReason, lock_wait}
use softos_sdd_orchestrator.Scheduler.State.{SchedulerConfig, LockTable, Sched, set_job, discard}
use softos_sdd_orchestrator.Scheduler.Loop.{
  gate, mark_wait, start, try_locks, try_start, settle_failure, settle_job, finish, mark_blocked,
  Round,
}
use softos_sdd_orchestrator.Scheduler.Sound.{IsSound, AreDistinct}
use softos_sdd_orchestrator.Scheduler.Kept.{IsKept}
use softos_sdd_orchestrator.Scheduler.Rounds.{IsSound-IsKept}

-- A table of locks in which only the named jobs own one, and which grants all to the first that asks.
pub record IdleLaws (L : LockTable) : Type 1 where
  pub OnlyOf : List String → L.Locks → Type 0
  pub acquire_free :
      (now : ℕ) (job : Job) (locks : L.Locks)
      → OnlyOf [] locks
      → (L.acquire now [] job locks).0 ≡ none
  pub acquire_granted :
      (now : ℕ) (running : List String) (job : Job) (locks : L.Locks)
      → OnlyOf running locks
      → OnlyOf (job.slice ∷ running) (L.acquire now running job locks).1
  pub acquire_refused :
      (now : ℕ) (running : List String) (job : Job) (locks : L.Locks) (reason : String)
      → OnlyOf running locks
      → (L.acquire now running job locks).0 ≡ some reason
      → OnlyOf running (L.acquire now running job locks).1
  pub release_only :
      (running : List String) (job : Job) (locks : L.Locks)
      → OnlyOf running locks
      → OnlyOf (discard job.slice running) (L.release job locks)
  pub heartbeat_only :
      (now : ℕ) (running : List String) (locks : L.Locks)
      → OnlyOf running locks
      → OnlyOf running (L.heartbeat now running locks)

module _ (L : LockTable) (config : SchedulerConfig) (pairs : List (String × String)) where
  open L use {Locks, acquire, release, heartbeat}

  module _ (P : List String → Locks → Type 0) where
    settle_failure-kept :
        (job : Job) (rc : ℤ) (s : Sched Locks)
        → P s.running_jobs s.locks
        → P
            (settle_failure L config pairs job rc s).running_jobs
            (settle_failure L config pairs job rc s).locks
    unfolding settle_failure set_job
    settle_failure-kept job rc s h =
        elim (Bool-cases (leb (config.max_retries_execution + 1) job.attempt)) [
          | inl out ↦ rw (out, settle_failure) h
          | inr more ↦ rw (more, settle_failure) h
        ]

    settle_job-kept :
        (job : Job) (worker : ℕ) (rc : ℤ) (s : Sched Locks)
        → P s.running_jobs s.locks
        → P
            (settle_job L config pairs job worker rc s).running_jobs
            (settle_job L config pairs job worker rc s).locks
    unfolding settle_job set_job
    settle_job-kept job worker (pos zero) s h = h
    settle_job-kept job worker (pos (suc n)) s h = settle_failure-kept job (pos (suc n)) s h
    settle_job-kept job worker (negsuc n) s h = settle_failure-kept job (negsuc n) s h

module _ (L : LockTable) (laws : IdleLaws L) (config : SchedulerConfig)
    (pairs : List (String × String)) where
  open L use {Locks, acquire, release, heartbeat}
  open laws use {OnlyOf}

  -- Only running jobs own a lock.
  abbrev pub IsOnly : Sched Locks → Type 0
  IsOnly s = OnlyOf s.running_jobs s.locks

  finish-IsOnly :
      (job : Job) (worker : ℕ) (rc : ℤ) (s : Sched Locks)
      → IsOnly s
      → IsOnly (finish L config pairs job worker rc s)
  unfolding finish
  finish-IsOnly job worker rc s h =
      settle_job-kept L config pairs OnlyOf job worker rc _
        (laws.release_only s.running_jobs job s.locks h)

  pub mark_wait-IsOnly :
      (job : Job) (reason : WaitReason) (s : Sched Locks)
      → IsOnly s
      → IsOnly (mark_wait L config pairs job reason s)
  unfolding mark_wait set_job
  mark_wait-IsOnly job reason s h = h

  try_locks-IsOnly :
      (now : ℕ) (job : Job) (s : Sched Locks) (answer : Option String × Locks)
      → answer ≡ acquire now s.running_jobs job s.locks
      → IsOnly s
      → IsOnly (try_locks L config pairs job answer s)
  unfolding try_locks start set_job
  try_locks-IsOnly now job s (some reason, locks) given h =
      mark_wait-IsOnly job (lock_wait reason) (record s { locks = locks })
        (subst (λ a. OnlyOf s.running_jobs a.1) (sym given)
          (laws.acquire_refused now s.running_jobs job s.locks reason h
            (ap (λ a. a.0) (sym given))))
  try_locks-IsOnly now job s (none, locks) given h =
      subst (λ a. OnlyOf (job.slice ∷ s.running_jobs) a.1) (sym given)
        (laws.acquire_granted now s.running_jobs job s.locks h)

  try_start-IsOnly :
      (round : Round) (job : Job) (s : Sched Locks)
      → IsOnly s
      → IsOnly (try_start L config pairs round job s)
  unfolding try_start
  try_start-IsOnly round job s h = elim (Option-cases (gate L config pairs s job)) [
    | inr (reason, shut) ↦ rw (shut, try_start) (mark_wait-IsOnly job reason s h)
    | inl free ↦
        rw (free, try_start) (try_locks-IsOnly (round.acquire_time job.slice) job s _ refl h)
  ]

  mark_blocked-IsOnly :
      (name parent : String) (s : Sched Locks)
      → IsOnly s
      → IsOnly (mark_blocked L config pairs name parent s)
  unfolding mark_blocked set_job
  mark_blocked-IsOnly name parent s h = h

  pub IsOnly-IsKept :
      AreDistinct pairs → IsKept L config pairs (λ rest s. IsSound config pairs rest s × IsOnly s)
  IsOnly-IsKept distinct =
      let sound = IsSound-IsKept L config pairs distinct in
      record {
        sound = λ rest s (h, _). h;
        at_futures =
            λ rest others futures s same (h, c). (sound.at_futures rest others futures s same h, c);
        at_heartbeat = λ now s (h, c).
            (sound.at_heartbeat now s h, laws.heartbeat_only now s.running_jobs s.locks c);
        at_finish = λ rest job worker rc s (h, c) found on.
            (sound.at_finish rest job worker rc s h found on, finish-IsOnly job worker rc s c);
        at_block = λ name parent job s (h, c) found idle lost. (
          sound.at_block name parent job s h found idle lost,
          mark_blocked-IsOnly name parent s c,
        );
        at_try = λ round job s (h, c) found idle.
            (sound.at_try round job s h found idle, try_start-IsOnly round job s c);
      }
