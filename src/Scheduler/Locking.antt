-- ===== src/Scheduler/Locking.antt =====
-- The laws of the operations for the owners of the semantic locks.
use softos_sdd_orchestrator.Prelude.{
  ℕ, zero, suc, leb, ◌+◌, String, true, false, ◌≡◌, refl, sym, ap, Option, none, some, List, [],
  ◌∷◌, ◌++◌, arith, Bool-cases, Option-cases, inl, inr, subst,
}
use softos_sdd_orchestrator.Prelude.Int.{ℤ, pos, negsuc}
use softos_sdd_orchestrator.Table.{update}
use softos_sdd_orchestrator.Scheduler.Plan.{
  Job, passed, failed, pending, execution_failed, retry_scheduled, lock_wait, running, blocked,
  dependency_failed, WaitReason, slice_of,
}
use softos_sdd_orchestrator.Scheduler.State.{SchedulerConfig, LockTable, Sched, set_job}
use softos_sdd_orchestrator.Scheduler.Loop.{
  is_pending, is_running, find_job, gate, mark_wait, start, try_locks, try_start, settle_job,
  settle_failure, finish, mark_blocked, Round,
}
use softos_sdd_orchestrator.Scheduler.Sound.{IsSound, AreDistinct, KeepsPlan}
use softos_sdd_orchestrator.Scheduler.Changes.{keeps_plan}
use softos_sdd_orchestrator.Scheduler.Kept.{IsKept}
use softos_sdd_orchestrator.Scheduler.Rounds.{IsSound-IsKept}
use softos_sdd_orchestrator.Scheduler.Preserve.{freed}
use softos_sdd_orchestrator.Scheduler.LockLaws.{LockLaws, IsHeld, set-IsHeld}

module _ (L : LockTable) (laws : LockLaws L) where
  open laws use {owner}

  module _ (config : SchedulerConfig) (pairs : List (String × String)) where
    abbrev pub IsLocked : List (String × ℕ) → Sched L.Locks → Type 0
    IsLocked rest s = IsSound config pairs rest s × IsHeld L laws s.jobs s.locks

    waiting-IsHeld :
        (job : Job) (reason : WaitReason) (s : Sched L.Locks)
        → IsHeld L laws s.jobs s.locks
        → find_job job.slice s.jobs ≡ some job
        → is_pending job ≡ true
        → (let s' = mark_wait L config pairs job reason s in IsHeld L laws s'.jobs s'.locks)
    unfolding mark_wait set_job
    waiting-IsHeld job reason s h found idle =
        set-IsHeld L laws job.slice job
          (λ j. record j { wait_reasons = j.wait_reasons ++ reason ∷ [] }) s.jobs s.locks s.locks
          found (keeps_plan (λ j. refl)) h (λ n lock other on own. own)
          (λ lock on. absurd (ground arith))

    -- The locks after an answer, with each lock of a running job in its hands.
    answered-IsHeld :
        (now : ℕ) (job : Job) (s : Sched L.Locks)
        → IsLocked [] s
        → find_job job.slice s.jobs ≡ some job
        → is_pending job ≡ true
        → IsHeld L laws s.jobs ((L.acquire now s.running_jobs job s.locks).1)
    answered-IsHeld now job s (sound, held) found idle n j lock e on l =
        laws.acquire_kept now s.running_jobs job s.locks lock n (held n j lock e on l)
          (ground (arith, sound.listed n)) (ground (arith, sound.listed job.slice))

    tried-IsHeld :
        (now : ℕ) (job : Job) (s : Sched L.Locks) (answer : Option String × L.Locks)
        → answer ≡ L.acquire now s.running_jobs job s.locks
        → IsLocked [] s
        → find_job job.slice s.jobs ≡ some job
        → is_pending job ≡ true
        → (let s' = try_locks L config pairs job answer s in IsHeld L laws s'.jobs s'.locks)
    unfolding try_locks start set_job
    tried-IsHeld now job s (some reason, locks) given h found idle =
        waiting-IsHeld job (lock_wait reason) (record s { locks = locks })
          (subst (λ a. IsHeld L laws s.jobs a.1) (sym given)
            (answered-IsHeld now job s h found idle))
          found idle
    tried-IsHeld now job s (none, locks) given h found idle =
        set-IsHeld L laws job.slice job
          (λ j. record j { status = running; attempt = j.attempt + 1 }) s.jobs locks locks found
          (keeps_plan (λ j. refl))
          (subst (λ a. IsHeld L laws s.jobs a.1) (sym given)
            (answered-IsHeld now job s h found idle))
          (λ n lock other on own. own)
          (λ lock on l.
            subst (λ a. owner lock a.1 ≡ some job.slice) (sym given)
              (laws.acquire_taken now s.running_jobs job s.locks lock (sym (ap (λ a. a.0) given))
                l))

    try_start-IsHeld :
        (round : Round) (job : Job) (s : Sched L.Locks)
        → IsLocked [] s
        → find_job job.slice s.jobs ≡ some job
        → is_pending job ≡ true
        → (let s' = try_start L config pairs round job s in IsHeld L laws s'.jobs s'.locks)
    unfolding try_start
    try_start-IsHeld round job s h found idle = elim (Option-cases (gate L config pairs s job)) [
      | inr (reason, closed) ↦ rw (closed, try_start) (waiting-IsHeld job reason s h.1 found idle)
      | inl free ↦
          let now = round.acquire_time job.slice in
          rw (free, try_start)
            (tried-IsHeld now job s (L.acquire now s.running_jobs job s.locks) refl h found idle)
    ]

    blocked-IsHeld :
        (name parent : String) (job : Job) (s : Sched L.Locks)
        → IsHeld L laws s.jobs s.locks
        → find_job name s.jobs ≡ some job
        → (let s' = mark_blocked L config pairs name parent s in IsHeld L laws s'.jobs s'.locks)
    unfolding mark_blocked set_job
    blocked-IsHeld name parent job s h found =
        set-IsHeld L laws name job
          (λ j. record j { status = blocked; failure_reason = some (dependency_failed parent) })
          s.jobs s.locks s.locks found (keeps_plan (λ j. refl)) h (λ n lock other on own. own)
          (λ lock on. absurd (ground arith))

    -- A job that is entered as done runs no more, and only its own locks are released.
    ended-IsHeld :
        (job : Job) (f : Job → Job) (s : Sched L.Locks)
        → IsHeld L laws s.jobs s.locks
        → find_job job.slice s.jobs ≡ some job
        → KeepsPlan f
        → is_running (f job) ≡ false
        → IsHeld L laws (update slice_of job.slice f s.jobs) (L.release job s.locks)
    ended-IsHeld job f s h found plan idle =
        set-IsHeld L laws job.slice job f s.jobs s.locks (L.release job s.locks) found plan h
          (λ n lock other on own. laws.release_kept job s.locks lock n own other)
          (λ lock on. absurd (ground arith))

    failed-IsHeld :
        (job : Job) (rc : ℤ) (s : Sched L.Locks)
        → IsHeld L laws s.jobs s.locks
        → find_job job.slice s.jobs ≡ some job
        → (let s' = settle_failure L config pairs job rc (freed L config pairs job s) in
            IsHeld L laws s'.jobs s'.locks)
    unfolding settle_failure set_job
    failed-IsHeld job rc s h found =
        elim (Bool-cases (leb (config.max_retries_execution + 1) job.attempt)) [
          | inl last ↦ rw last (
              ended-IsHeld job
                (λ j. record j { status = failed; failure_reason = some (execution_failed rc) }) s h
                found (keeps_plan (λ j. refl)) refl)
          | inr more ↦ rw more (
              ended-IsHeld job
                (λ j. record j { status = pending; failure_reason = some (retry_scheduled rc) }) s h
                found (keeps_plan (λ j. refl)) refl)
        ]

    finish-IsHeld :
        (job : Job) (worker : ℕ) (rc : ℤ) (s : Sched L.Locks)
        → IsHeld L laws s.jobs s.locks
        → find_job job.slice s.jobs ≡ some job
        → (let s' = finish L config pairs job worker rc s in IsHeld L laws s'.jobs s'.locks)
    unfolding finish settle_job set_job
    finish-IsHeld job worker (pos zero) s h found =
        ended-IsHeld job (λ j. record j { status = passed; worker = some worker }) s h found
          (keeps_plan (λ j. refl)) refl
    finish-IsHeld job worker (pos (suc n)) s h found = failed-IsHeld job (pos (suc n)) s h found
    finish-IsHeld job worker (negsuc n) s h found = failed-IsHeld job (negsuc n) s h found

    pub IsLocked-IsKept : AreDistinct pairs → IsKept L config pairs IsLocked
    IsLocked-IsKept distinct =
        let kept = IsSound-IsKept L config pairs distinct in
        record {
          sound = λ rest s h. h.0;
          at_futures =
              λ rest others futures s same h. (kept.at_futures rest others futures s same h.0, h.1);
          at_heartbeat = λ now s h. (
            kept.at_heartbeat now s h.0,
            λ n job lock e on l.
                laws.heartbeat_kept now s.running_jobs s.locks lock n (h.1 n job lock e on l),
          );
          at_finish = λ rest job worker rc s h found on. (
            kept.at_finish rest job worker rc s h.0 found on,
            finish-IsHeld job worker rc s h.1 found,
          );
          at_block = λ name parent job s h found idle lost. (
            kept.at_block name parent job s h.0 found idle lost,
            blocked-IsHeld name parent job s h.1 found,
          );
          at_try = λ round job s h found idle.
              (kept.at_try round job s h.0 found idle, try_start-IsHeld round job s h found idle);
        }
