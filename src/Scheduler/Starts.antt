-- ===== src/Scheduler/Starts.antt =====
-- When nothing runs and a job can be started, the schedule of a round starts one.
use softos_sdd_orchestrator.Prelude.{
  ℕ, ◌≤◌, String, true, false, ◌≡◌, ◌⊎◌, sym, ap, subst, none, some, List, [], ◌∷◌, ◌==◌, eq_iff,
  Bool-cases, Option-cases, inl, inr,
}
use softos_sdd_orchestrator.Prelude.Lists.{contains}
use softos_sdd_orchestrator.Prelude.Order.{true-false}
use softos_sdd_orchestrator.Table.Laws.{select-key}
use softos_sdd_orchestrator.Scheduler.Plan.{Job, WaitReason, slice_of}
use softos_sdd_orchestrator.Scheduler.State.{SchedulerConfig, LockTable, Sched, set_job}
use softos_sdd_orchestrator.Scheduler.Loop.{
  is_pending, find_job, gate, mark_wait, try_start, visit, schedule, Round,
}
use softos_sdd_orchestrator.Scheduler.Sound.{IsSound, AreDistinct}
use softos_sdd_orchestrator.Scheduler.Kept.{visit-kept}
use softos_sdd_orchestrator.Scheduler.Idle.{IdleLaws, IsOnly, IsOnly-IsKept}
use softos_sdd_orchestrator.Scheduler.Ready.{
  has_some, IsStartable, IsQuiet, gate-IsStartable, schedule-has_some, started,
  mark_wait-IsStartable,
}

module _ (L : LockTable) (laws : IdleLaws L) (config : SchedulerConfig)
    (pairs : List (String × String)) (distinct : AreDistinct pairs)
    (repo_room : 1 ≤ config.per_repo_capacity) (area_room : 1 ≤ config.per_hot_area_capacity) where
  open L use {Locks, acquire, release, heartbeat}

  -- A quiet state in which the job of this name can be started.
  abbrev IsReady : String → Sched Locks → Type 0
  IsReady name s = IsQuiet L laws config pairs distinct repo_room area_room s × IsStartable s name

  -- What a visit makes of such a state: it stays so, or something runs.
  abbrev Visited : String → Sched Locks → Type 0
  Visited name s = (has_some s.running_jobs ≡ true) ⊎ ((s.running_jobs ≡ []) × IsStartable s name)

  off_now :
      (name : String) (s : Sched Locks) → s.running_jobs ≡ [] → contains name s.running_jobs ≡ false
  off_now name s none_run = ap (contains name) none_run

  granted :
      (now : ℕ) (job : Job) (s : Sched Locks)
      → IsQuiet L laws config pairs distinct repo_room area_room s
      → (acquire now s.running_jobs job s.locks).0 ≡ none
  granted now job s ((_, only), none_run) =
      subst (λ r. (acquire now r job s.locks).0 ≡ none) (sym none_run)
        (laws.acquire_free now job s.locks (subst (λ r. laws.OnlyOf r s.locks) none_run only))

  mark_wait_quiet :
      (job : Job) (reason : WaitReason) (s : Sched Locks)
      → s.running_jobs ≡ []
      → (mark_wait L config pairs job reason s).running_jobs ≡ []
  unfolding mark_wait set_job
  mark_wait_quiet job reason s h = h

  try_start-Visited :
      (round : Round) (job : Job) (s : Sched Locks) (name : String)
      → IsReady name s
      → find_job job.slice s.jobs ≡ some job
      → is_pending job ≡ true
      → Visited name (try_start L config pairs round job s)
  unfolding try_start
  try_start-Visited round job s name (quiet, ready) found idle =
      elim (Option-cases (gate L config pairs s job)) [
        | inr (reason, shut) ↦
            rw (shut, try_start)
              (inr (
                mark_wait_quiet job reason s quiet.1,
                mark_wait-IsStartable L laws config pairs distinct repo_room area_room job reason s
                    name found idle ready,
              ))
        | inl free ↦
            rw (free, try_start)
              (inl (
                started L laws config pairs distinct repo_room area_room job _ s
                  (granted (round.acquire_time job.slice) job s quiet)))
      ]

  visit-Visited :
      (round : Round) (other name : String) (s : Sched Locks)
      → IsReady name s
      → Visited name (visit L config pairs round other s)
  unfolding visit
  visit-Visited round other name s (quiet, ready) = elim (Option-cases (find_job other s.jobs)) [
    | inl absent ↦ rw (off_now other s quiet.1, visit) (rw absent (inr (quiet.1, ready)))
    | inr (job, found) ↦ elim (Bool-cases (is_pending job)) [
      | inr over ↦ rw (off_now other s quiet.1, visit) (rw found (rw over (inr (quiet.1, ready))))
      | inl idle ↦
          let named : job.slice ≡ other = select-key slice_of other s.jobs found in
          rw (off_now other s quiet.1, visit)
            (rw found (
              rw idle (
                try_start-Visited round job s name (quiet, ready)
                  (subst (λ n. find_job n s.jobs ≡ some job) (sym named) found) idle)))
    ]
  ]

  -- A visit to the job itself starts it.
  visit-started :
      (round : Round) (name : String) (s : Sched Locks)
      → IsReady name s
      → has_some (visit L config pairs round name s).running_jobs ≡ true
  unfolding visit try_start
  visit-started round name s (quiet, ready) =
      rw (off_now name s quiet.1, visit)
        (rw ready.found (
          rw ready.idle (
            rw
              (
                gate-IsStartable L laws config pairs distinct repo_room area_room s ready.job quiet
                    ready.free,
                try_start,
              )
              (started L laws config pairs distinct repo_room area_room ready.job _ s
                (granted (round.acquire_time ready.job.slice) ready.job s quiet)))))

  pub schedule-starts :
      (round : Round) (names : List String) (name : String) (s : Sched Locks)
      → contains name names ≡ true
      → IsReady name s
      → has_some (schedule L config pairs round names s).running_jobs ≡ true
  unfolding schedule
  schedule-starts round [] name s listed ready = absurd (true-false (sym listed))
  schedule-starts round (other ∷ names) name s listed ready = elim (Bool-cases (other == name)) [
    | inl same ↦
        schedule-has_some L laws config pairs distinct repo_room area_room round names
          (visit L config pairs round other s)
          (subst (λ n. has_some (visit L config pairs round n s).running_jobs ≡ true)
            (sym ((eq_iff other name).0 same)) (visit-started round name s ready))
    | inr differ ↦ elim (visit-Visited round other name s ready) [
      | inl runs ↦
          schedule-has_some L laws config pairs distinct repo_room area_room round names
            (visit L config pairs round other s) runs
      | inr (none_run, still_ready) ↦
          schedule-starts round names name (visit L config pairs round other s)
            (rw differ at listed)
            (
              (
                visit-kept L config pairs
                    (λ rest t. IsSound config pairs rest t × IsOnly L laws config pairs t)
                    (IsOnly-IsKept L laws config pairs distinct) round other s ready.0.0,
                none_run,
              ),
              still_ready,
            )
    ]
  ]
