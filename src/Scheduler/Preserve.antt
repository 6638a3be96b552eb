-- ===== src/Scheduler/Preserve.antt =====
-- Lemmas on the invariant for the waiting, the start and the end of a job.
use softos_sdd_orchestrator.Prelude.{
  ℕ, zero, suc, ◌+◌, ◌<◌, String, true, ◌≡◌, refl, none, some, List, [], ◌∷◌, ◌++◌, arith,
  Bool-cases, inl, inr, leb,
}
use softos_sdd_orchestrator.Prelude.Int.{ℤ, pos, negsuc}
use softos_sdd_orchestrator.Prelude.Lists.{length}
use softos_sdd_orchestrator.Table.{insert}
use softos_sdd_orchestrator.Scheduler.Plan.{
  Job, running, pending, passed, failed, WaitReason, execution_failed, retry_scheduled,
}
use softos_sdd_orchestrator.Scheduler.State.{
  discard, decrease, decrease_all, SchedulerConfig, LockTable, Sched, set_job,
}
use softos_sdd_orchestrator.Scheduler.Loop.{
  is_pending, is_running, find_job, waiting_parent, full_area, overlapping, gate, mark_wait, start,
  settle_failure, settle_job, finish,
}
use softos_sdd_orchestrator.Scheduler.Sound.{AreDistinct, IsSound}
use softos_sdd_orchestrator.Scheduler.Changes.{keeps_plan}
use softos_sdd_orchestrator.Scheduler.Moves.{idle-IsSound, started-IsSound, done-IsSound}

module _ (L : LockTable) (config : SchedulerConfig) (pairs : List (String × String)) where
  open L use {Locks, acquire, release, heartbeat}

  -- The gate lets a job pass only if each of its conditions holds.
  gate-none :
      (s : Sched Locks) (job : Job)
      → gate L config pairs s job ≡ none
      → (waiting_parent s.jobs job.depends_on ≡ none)
        × (s.running_by_repo job.repo < config.per_repo_capacity)
        × (full_area config.per_hot_area_capacity s.running_by_hot_area job.hot_areas ≡ none)
        × (overlapping job.slice s.running_jobs pairs ≡ none)
  unfolding gate
  gate-none s job h = (ground arith, ground arith, ground arith, ground arith)

  module _ (rest : List (String × ℕ)) where
    -- The locks are no part of what is sound.
    pub locks-IsSound :
        (s : Sched Locks) (locks : Locks)
        → IsSound config pairs rest s
        → IsSound config pairs rest (record s { locks = locks })
    locks-IsSound s locks h = record {
      unique = h.unique;
      listed = h.listed;
      repo_counted = h.repo_counted;
      repo_within = h.repo_within;
      area_counted = h.area_counted;
      area_within = h.area_within;
      fits = h.fits;
      apart = h.apart;
      one_future = h.one_future;
      ended = h.ended;
      flagged = h.flagged;
    }

    pub mark_wait-IsSound :
        (job : Job) (reason : WaitReason) (s : Sched Locks)
        → IsSound config pairs rest s
        → find_job job.slice s.jobs ≡ some job
        → is_pending job ≡ true
        → IsSound config pairs rest (mark_wait L config pairs job reason s)
    unfolding mark_wait set_job
    mark_wait-IsSound job reason s h found idle =
        let f : Job → Job = λ j. record j { wait_reasons = j.wait_reasons ++ reason ∷ [] } in
        let fit = h.fits job.slice job found in
        idle-IsSound config pairs rest s h job.slice job found f (keeps_plan (λ j. refl)) (λ p. p)
          (λ p. p)
          (record {
            once = fit.once;
            attempts = fit.attempts;
            may_retry = fit.may_retry;
            parents_passed = fit.parents_passed;
            out_of_attempts = fit.out_of_attempts;
            lost_parent = fit.lost_parent;
          })
          (mark_wait L config pairs job reason s) refl refl refl refl refl refl (ground arith) idle
          (ground arith)

    pub start-IsSound :
        (job : Job) (s : Sched Locks)
        → AreDistinct pairs
        → IsSound config pairs rest s
        → find_job job.slice s.jobs ≡ some job
        → is_pending job ≡ true
        → gate L config pairs s job ≡ none
        → IsSound config pairs rest (start L config pairs job s)
    unfolding start set_job
    start-IsSound job s distinct h found idle free =
        let f : Job → Job = λ j. record j { status = running; attempt = j.attempt + 1 } in
        let fit = h.fits job.slice job found in
        let open_gate = gate-none s job free in
        started-IsSound config pairs rest s h job.slice job found f (keeps_plan (λ j. refl))
          (ground arith) (ground arith)
          (record {
            once = fit.once;
            attempts = ground (arith, fit.may_retry idle);
            may_retry = λ p. ground arith;
            parents_passed = λ p. open_gate.0;
            out_of_attempts = λ p. ground arith;
            lost_parent = λ p. absurd (ground arith);
          })
          (start L config pairs job s) (length s.futures + 1) refl refl refl refl refl refl refl
          idle refl open_gate.1 open_gate.2 open_gate.3 distinct

  -- The state in which a done job is entered.
  abbrev pub freed : Job → Sched Locks → Sched Locks
  freed job s = record s {
    running_jobs = discard job.slice s.running_jobs;
    running_by_repo = decrease job.repo s.running_by_repo;
    running_by_hot_area = decrease_all job.hot_areas s.running_by_hot_area;
    locks = release job s.locks;
  }

  settle_failure-IsSound :
      (rest : List (String × ℕ)) (job : Job) (worker : ℕ) (rc : ℤ) (s : Sched Locks)
      → IsSound config pairs ((job.slice, worker) ∷ rest) s
      → find_job job.slice s.jobs ≡ some job
      → is_running job ≡ true
      → IsSound config pairs rest (settle_failure L config pairs job rc (freed job s))
  unfolding settle_failure set_job
  settle_failure-IsSound rest job worker rc s h found on =
      let fit = h.fits job.slice job found in
      elim (Bool-cases (leb (config.max_retries_execution + 1) job.attempt)) [
        | inl last ↦
            let f : Job → Job =
              λ j. record j { status = failed; failure_reason = some (execution_failed rc) } in
            let s' : Sched Locks = set_job job.slice f (record (freed job s) {
              dlq =
                  insert
                    (record {
                      slice = job.slice;
                      reason = execution_failed rc;
                      attempt = job.attempt;
                    })
                    s.dlq;
              completed = s.completed + 1;
              any_failed = true;
            }) in
            rw last (
              done-IsSound config pairs ((job.slice, worker) ∷ rest) s h job.slice job found f
                (keeps_plan (λ j. refl)) (ground arith) (ground arith)
                (record {
                  once = fit.once;
                  attempts = fit.attempts;
                  may_retry = λ p. ground arith;
                  parents_passed = λ p. ground arith;
                  out_of_attempts = λ p. ground arith;
                  lost_parent = λ p. absurd (ground arith);
                })
                s' worker rest refl refl refl refl refl refl refl (ground arith) on refl)
        | inr more ↦
            let f : Job → Job =
              λ j. record j { status = pending; failure_reason = some (retry_scheduled rc) } in
            let s' : Sched Locks = set_job job.slice f (freed job s) in
            rw more (
              done-IsSound config pairs ((job.slice, worker) ∷ rest) s h job.slice job found f
                (keeps_plan (λ j. refl)) (ground arith) (ground arith)
                (record {
                  once = fit.once;
                  attempts = fit.attempts;
                  may_retry = λ p. ground arith;
                  parents_passed = λ p. ground arith;
                  out_of_attempts = λ p. ground arith;
                  lost_parent = λ p. absurd (ground arith);
                })
                s' worker rest refl refl refl refl refl refl (omega arith) (ground arith) on refl)
      ]

  -- A done future is taken off the list, and its job is entered by the return code.
  pub finish-IsSound :
      (rest : List (String × ℕ)) (job : Job) (worker : ℕ) (rc : ℤ) (s : Sched Locks)
      → IsSound config pairs ((job.slice, worker) ∷ rest) s
      → find_job job.slice s.jobs ≡ some job
      → is_running job ≡ true
      → IsSound config pairs rest (finish L config pairs job worker rc s)
  unfolding finish settle_job set_job
  finish-IsSound rest job worker (pos zero) s h found on =
      let f : Job → Job = λ j. record j { status = passed; worker = some worker } in
      let fit = h.fits job.slice job found in
      done-IsSound config pairs ((job.slice, worker) ∷ rest) s h job.slice job found f
        (keeps_plan (λ j. refl)) (λ p. refl) (ground arith)
        (record {
          once = fit.once;
          attempts = fit.attempts;
          may_retry = λ p. ground arith;
          parents_passed = λ p. fit.parents_passed (ground arith);
          out_of_attempts = λ p. ground arith;
          lost_parent = λ p. absurd (ground arith);
        })
        (finish L config pairs job worker (pos zero) s) worker rest refl refl refl refl refl refl
        refl (ground arith) on refl
  finish-IsSound rest job worker (pos (suc n)) s h found on =
      settle_failure-IsSound rest job worker (pos (suc n)) s h found on
  finish-IsSound rest job worker (negsuc n) s h found on =
      settle_failure-IsSound rest job worker (negsuc n) s h found on
