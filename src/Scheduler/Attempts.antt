-- ===== src/Scheduler/Attempts.antt =====
-- Lemmas on the invariant for the attempt to start a job, for a blocked job and for the futures.
use softos_sdd_orchestrator.Prelude.{
  ℕ, ◌+◌, String, true, ◌≡◌, refl, sym, Option, none, some, List, [], ◌∷◌, ◌∙◌, arith, eq_iff, inl,
  inr, Option-cases,
}
use softos_sdd_orchestrator.Table.Count.{total}
use softos_sdd_orchestrator.Scheduler.Plan.{Job, lock_wait, blocked, dependency_failed}
use softos_sdd_orchestrator.Scheduler.State.{SchedulerConfig, LockTable, Sched, set_job}
use softos_sdd_orchestrator.Scheduler.Loop.{
  is_pending, find_job, failed_parent, gate, try_locks, try_start, mark_blocked, Round,
}
use softos_sdd_orchestrator.Scheduler.Sound.{AreDistinct, IsSound, runs, future_load}
use softos_sdd_orchestrator.Scheduler.Changes.{keeps_plan, none-some}
use softos_sdd_orchestrator.Scheduler.Moves.{idle-IsSound}
use softos_sdd_orchestrator.Scheduler.Preserve.{locks-IsSound, mark_wait-IsSound, start-IsSound}

module _ (L : LockTable) (config : SchedulerConfig) (pairs : List (String × String)) where
  open L use {Locks, acquire, release, heartbeat}

  -- Futures may be moved between the list that is looked at and the list that is kept.
  pub futures-IsSound :
      (rest others futures : List (String × ℕ)) (s : Sched Locks)
      → ((n : String)
          → total (future_load n) others + total (future_load n) futures
            ≡ total (future_load n) rest + total (future_load n) s.futures)
      → IsSound config pairs rest s
      → IsSound config pairs others (record s { futures = futures })
  futures-IsSound rest others futures s same h = record {
    unique = h.unique;
    listed = h.listed;
    repo_counted = h.repo_counted;
    repo_within = h.repo_within;
    area_counted = h.area_counted;
    area_within = h.area_within;
    fits = h.fits;
    apart = h.apart;
    one_future = λ n. same n ∙ h.one_future n;
    ended = h.ended;
    flagged = h.flagged;
  }

  -- The job of a future runs.
  pub future-runs :
      (name : String) (worker : ℕ) (futures : List (String × ℕ)) (s : Sched Locks)
      → IsSound config pairs ((name, worker) ∷ futures) s
      → runs name s.jobs ≡ true
  unfolding total
  future-runs name worker futures s h = ground (arith, h.one_future name, eq_iff name name)

  pub blocked-IsSound :
      (name parent : String) (job : Job) (s : Sched Locks)
      → IsSound config pairs [] s
      → find_job name s.jobs ≡ some job
      → is_pending job ≡ true
      → failed_parent s.jobs job.depends_on ≡ some parent
      → IsSound config pairs [] (mark_blocked L config pairs name parent s)
  unfolding mark_blocked set_job
  blocked-IsSound name parent job s h found idle lost =
      let f : Job → Job =
        λ j. record j { status = blocked; failure_reason = some (dependency_failed parent) } in
      let fit = h.fits name job found in
      idle-IsSound config pairs [] s h name job found f (keeps_plan (λ j. refl)) (ground arith)
        (ground arith)
        (record {
          once = fit.once;
          attempts = fit.attempts;
          may_retry = λ p. ground arith;
          parents_passed = λ p. ground arith;
          out_of_attempts = λ p. ground arith;
          lost_parent = λ p e. absurd (none-some (sym lost ∙ e));
        })
        (mark_blocked L config pairs name parent s) refl refl refl refl refl (ground arith)
        (ground arith) idle refl

  module _ (distinct : AreDistinct pairs) where
    try_locks-IsSound :
        (job : Job) (answer : Option String × Locks) (s : Sched Locks)
        → IsSound config pairs [] s
        → find_job job.slice s.jobs ≡ some job
        → is_pending job ≡ true
        → gate L config pairs s job ≡ none
        → IsSound config pairs [] (try_locks L config pairs job answer s)
    unfolding try_locks gate
    try_locks-IsSound job (some reason, locks) s h found idle free =
        mark_wait-IsSound L config pairs [] job (lock_wait reason) (record s { locks = locks })
          (locks-IsSound L config pairs [] s locks h) found idle
    try_locks-IsSound job (none, locks) s h found idle free =
        start-IsSound L config pairs [] job (record s { locks = locks }) distinct
          (locks-IsSound L config pairs [] s locks h) found idle free

    pub try_start-IsSound :
        (round : Round) (job : Job) (s : Sched Locks)
        → IsSound config pairs [] s
        → find_job job.slice s.jobs ≡ some job
        → is_pending job ≡ true
        → IsSound config pairs [] (try_start L config pairs round job s)
    unfolding try_start
    try_start-IsSound round job s h found idle = elim (Option-cases (gate L config pairs s job)) [
      | inr (reason, closed) ↦
          rw (closed, try_start) (mark_wait-IsSound L config pairs [] job reason s h found idle)
      | inl free ↦
          rw (free, try_start)
            (try_locks-IsSound job
              (acquire (round.acquire_time job.slice) s.running_jobs job s.locks) s h found idle
              free)
    ]
