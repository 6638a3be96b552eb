-- ===== src/Scheduler/Kept.antt =====
-- The loops of a round, for any invariant that comes with a law for each operation.
use softos_sdd_orchestrator.Prelude.{
  ℕ, ◌+◌, String, true, ◌≡◌, sym, some, List, [], ◌∷◌, arith, Bool-cases, inl, inr, subst, ltb,
  Option-cases,
}
use softos_sdd_orchestrator.Prelude.Int.{ℤ}
use softos_sdd_orchestrator.Prelude.Lists.{length, contains}
use softos_sdd_orchestrator.Table.{insert}
use softos_sdd_orchestrator.Table.Count.{total, total-insert}
use softos_sdd_orchestrator.Table.Laws.{select-key}
use softos_sdd_orchestrator.Scheduler.Plan.{Job, slice_of, sorted_names}
use softos_sdd_orchestrator.Scheduler.State.{SchedulerConfig, LockTable, Sched}
use softos_sdd_orchestrator.Scheduler.Loop.{
  is_pending, is_running, find_job, failed_parent, try_start, visit, schedule, finish, finalize,
  mark_blocked, block, block_all, Round, round_step, run,
}
use softos_sdd_orchestrator.Scheduler.Sound.{IsSound, future_load}
use softos_sdd_orchestrator.Scheduler.Attempts.{future-runs}

-- What the operations of a round have to show for an invariant of the futures that are still to
-- be looked at and of the state.
pub record IsKept (L : LockTable) (config : SchedulerConfig) (pairs : List (String × String))
    (Inv : List (String × ℕ) → Sched L.Locks → Type 0) : Type 0 where
  pub sound :
      (rest : List (String × ℕ)) (s : Sched L.Locks) → Inv rest s → IsSound config pairs rest s
  pub at_futures :
      (rest others futures : List (String × ℕ)) (s : Sched L.Locks)
      → ((n : String)
          → total (future_load n) others + total (future_load n) futures
            ≡ total (future_load n) rest + total (future_load n) s.futures)
      → Inv rest s
      → Inv others (record s { futures = futures })
  pub at_heartbeat :
      (now : ℕ) (s : Sched L.Locks)
      → Inv [] s
      → Inv [] (record s { locks = L.heartbeat now s.running_jobs s.locks })
  pub at_finish :
      (rest : List (String × ℕ)) (job : Job) (worker : ℕ) (rc : ℤ) (s : Sched L.Locks)
      → Inv ((job.slice, worker) ∷ rest) s
      → find_job job.slice s.jobs ≡ some job
      → is_running job ≡ true
      → Inv rest (finish L config pairs job worker rc s)
  pub at_block :
      (name parent : String) (job : Job) (s : Sched L.Locks)
      → Inv [] s
      → find_job name s.jobs ≡ some job
      → is_pending job ≡ true
      → failed_parent s.jobs job.depends_on ≡ some parent
      → Inv [] (mark_blocked L config pairs name parent s)
  pub at_try :
      (round : Round) (job : Job) (s : Sched L.Locks)
      → Inv [] s
      → find_job job.slice s.jobs ≡ some job
      → is_pending job ≡ true
      → Inv [] (try_start L config pairs round job s)

module _ (L : LockTable) (config : SchedulerConfig) (pairs : List (String × String))
    (Inv : List (String × ℕ) → Sched L.Locks → Type 0) (kept : IsKept L config pairs Inv) where
  open L use {Locks, acquire, release, heartbeat}

  pub finalize-kept :
      (round : Round) (futures : List (String × ℕ)) (s : Sched Locks)
      → Inv futures s
      → Inv [] (finalize L config pairs round futures s)
  unfolding finalize total
  finalize-kept round [] s h = h
  finalize-kept round ((name, worker) ∷ futures) s h = elim (Option-cases (round.result name)) [
    | inl open_future ↦
        rw (open_future, finalize)
          (finalize-kept round futures (record s { futures = insert (name, worker) s.futures })
            (kept.at_futures ((name, worker) ∷ futures) futures (insert (name, worker) s.futures) s
              (λ n. omega (arith, total-insert (future_load n) (name, worker) s.futures)) h))
    | inr (rc, done) ↦ elim (Option-cases (find_job name s.jobs)) [
      | inl absent ↦ absurd (
          ground (
            arith,
            future-runs L config pairs name worker futures s
                (kept.sound ((name, worker) ∷ futures) s h),
          ))
      | inr (job, found) ↦
          let named : job.slice ≡ name = select-key slice_of name s.jobs found in
          rw (done, finalize)
            (rw found (
              finalize-kept round futures (finish L config pairs job worker rc s) (
                kept.at_finish futures job worker rc s
                  (subst (λ n. Inv ((n, worker) ∷ futures) s) (sym named) h)
                  (subst (λ n. find_job n s.jobs ≡ some job) (sym named) found)
                  (ground (
                    arith,
                    future-runs L config pairs name worker futures s
                        (kept.sound ((name, worker) ∷ futures) s h),
                  )))))
    ]
  ]

  block-kept : (name : String) (s : Sched Locks) → Inv [] s → Inv [] (block L config pairs name s)
  unfolding block
  block-kept name s h = elim (Option-cases (find_job name s.jobs)) [
    | inl absent ↦ rw (absent, block) h
    | inr (job, found) ↦ elim (Bool-cases (is_pending job)) [
      | inr over ↦ rw (found, block) (rw over h)
      | inl idle ↦ elim (Option-cases (failed_parent s.jobs job.depends_on)) [
        | inl fine ↦ rw (found, block) (rw idle (rw fine h))
        | inr (parent, lost) ↦
            rw (found, block)
              (rw idle (rw lost (kept.at_block name parent job s h found idle lost)))
      ]
    ]
  ]

  pub block_all-kept :
      (names : List String) (s : Sched Locks) → Inv [] s → Inv [] (block_all L config pairs names s)
  unfolding block_all
  block_all-kept [] s h = h
  block_all-kept (name ∷ names) s h =
      block_all-kept names (block L config pairs name s) (block-kept name s h)

  pub visit-kept :
      (round : Round) (name : String) (s : Sched Locks)
      → Inv [] s
      → Inv [] (visit L config pairs round name s)
  unfolding visit
  visit-kept round name s h = elim (Bool-cases (contains name s.running_jobs)) [
    | inl on ↦ rw (on, visit) h
    | inr off ↦ elim (Option-cases (find_job name s.jobs)) [
      | inl absent ↦ rw (off, visit) (rw absent h)
      | inr (job, found) ↦ elim (Bool-cases (is_pending job)) [
        | inr over ↦ rw (off, visit) (rw found (rw over h))
        | inl idle ↦
            let named : job.slice ≡ name = select-key slice_of name s.jobs found in
            rw (off, visit)
              (rw found (
                rw idle (
                  kept.at_try round job s h
                    (subst (λ n. find_job n s.jobs ≡ some job) (sym named) found) idle)))
      ]
    ]
  ]

  pub schedule-kept :
      (round : Round) (names : List String) (s : Sched Locks)
      → Inv [] s
      → Inv [] (schedule L config pairs round names s)
  unfolding schedule
  schedule-kept round [] s h = h
  schedule-kept round (name ∷ names) s h =
      schedule-kept round names (visit L config pairs round name s) (visit-kept round name s h)

  pub round_step-kept :
      (round : Round) (s : Sched Locks) → Inv [] s → Inv [] (round_step L config pairs round s)
  unfolding round_step total
  round_step-kept round s h =
      let locks = heartbeat round.heartbeat_time s.running_jobs s.locks in
      let beaten : Sched Locks = record s { locks = locks } in
      schedule-kept round (sorted_names s.jobs) _ (
        block_all-kept (sorted_names s.jobs) _ (
          finalize-kept round s.futures (record beaten { futures = [] })
            (kept.at_futures [] s.futures [] beaten (λ n. omega arith)
              (kept.at_heartbeat round.heartbeat_time s h))))

  pub run-kept :
      (rounds : List Round) (s : Sched Locks) → Inv [] s → Inv [] (run L config pairs rounds s)
  unfolding run
  run-kept [] s h = h
  run-kept (round ∷ rounds) s h = elim (Bool-cases (ltb s.completed (length s.jobs))) [
    | inl more ↦
        rw (more, run)
          (run-kept rounds (round_step L config pairs round s) (round_step-kept round s h))
    | inr over ↦ rw (over, run) h
  ]
