-- ===== src/Scheduler/Whole.antt =====
-- `run_slice_scheduler` from the plan to the last round.
use softos_sdd_orchestrator.Prelude.{
  ℕ, String, true, false, ◌≡◌, refl, sym, some, List, [], ◌∷◌, arith, ◌==◌, Bool-cases, inl, inr,
  subst, Option-cases,
}
use softos_sdd_orchestrator.Prelude.Lists.{All}
use softos_sdd_orchestrator.Table.{select}
use softos_sdd_orchestrator.Table.Count.{total}
use softos_sdd_orchestrator.Scheduler.Plan.{SlicePayload, Job, jobs_of, sorted_names, overlap_pairs}
use softos_sdd_orchestrator.Scheduler.State.{SchedulerConfig, LockTable, Sched}
use softos_sdd_orchestrator.Scheduler.Loop.{Round, run, is_pending, find_job}
use softos_sdd_orchestrator.Scheduler.Sound.{
  IsSound, AreApart, runs, repo_load, area_load, end_load, lost_load,
}
use softos_sdd_orchestrator.Scheduler.Fresh.{IsFresh, IsPlan, jobs_of-IsPlan}
use softos_sdd_orchestrator.Scheduler.Pairs.{overlap_pairs-AreDistinct}
use softos_sdd_orchestrator.Scheduler.Rounds.{run-IsSound}

module _ (L : LockTable) where
  open L use {Locks, acquire, release, heartbeat}

  -- The state before the first round.
  unfoldable pub initial : List Job → Locks → Sched Locks
  initial jobs locks = record {
    jobs = jobs;
    running_jobs = [];
    running_by_repo = λ _. 0;
    running_by_hot_area = λ _. 0;
    futures = [];
    completed = 0;
    any_failed = false;
    dlq = [];
    waits = [];
    locks = locks;
  }

  -- The state after as many rounds as the environment answers.
  unfoldable pub run_slice_scheduler :
      SchedulerConfig → List SlicePayload → Locks → List Round → Sched Locks
  unfolding jobs_of overlap_pairs sorted_names run
  run_slice_scheduler config payloads locks rounds =
      let jobs = jobs_of payloads [] in
      run L config (overlap_pairs jobs (sorted_names jobs)) rounds (initial jobs locks)

  pub find-IsFresh :
      (n : String) (job : Job) (jobs : List Job)
      → All IsFresh jobs
      → find_job n jobs ≡ some job
      → IsFresh job
  unfolding select
  find-IsFresh n job [] h e = absurd (ground arith)
  find-IsFresh n job (j ∷ jobs) h e = elim (Bool-cases (j.slice == n)) [
    | inl same ↦ subst IsFresh (ground arith) h.0
    | inr other ↦ find-IsFresh n job jobs h.1 (ground arith)
  ]

  fresh-runs : (n : String) (jobs : List Job) → All IsFresh jobs → runs n jobs ≡ false
  fresh-runs n jobs h = elim (Option-cases (find_job n jobs)) [
    | inl absent ↦ ground arith
    | inr (job, found) ↦ ground (arith, (find-IsFresh n job jobs h found).idle)
  ]

  fresh-total :
      (weight : Job → ℕ) (jobs : List Job)
      → ((job : Job) → is_pending job ≡ true → weight job ≡ 0)
      → All IsFresh jobs
      → total weight jobs ≡ 0
  unfolding total
  fresh-total weight [] light h = refl
  fresh-total weight (job ∷ jobs) light h =
      omega (arith, fresh-total weight jobs light h.1, light job h.0.idle)

  fresh-AreApart :
      (jobs : List Job) (pairs : List (String × String)) → All IsFresh jobs → AreApart jobs pairs
  fresh-AreApart jobs [] h = tt
  fresh-AreApart jobs ((left, right) ∷ pairs) h =
      (ground (arith, fresh-runs left jobs h), fresh-AreApart jobs pairs h)

  pub initial-IsSound :
      (config : SchedulerConfig) (pairs : List (String × String)) (jobs : List Job) (locks : Locks)
      → IsPlan jobs
      → IsSound config pairs [] (initial jobs locks)
  unfolding initial total
  initial-IsSound config pairs jobs locks (unique, fresh) = record {
    unique = unique;
    listed = λ n. sym (fresh-runs n jobs fresh);
    repo_counted = λ n. sym (fresh-total (repo_load n) jobs (λ j p. ground arith) fresh);
    repo_within = λ n. omega arith;
    area_counted = λ n. sym (fresh-total (area_load n) jobs (λ j p. ground arith) fresh);
    area_within = λ n. omega arith;
    fits = λ n job found.
        let own = find-IsFresh n job jobs fresh found in
        record {
          once = own.once;
          attempts = omega (arith, own.untried);
          may_retry = λ p. omega (arith, own.untried);
          parents_passed = λ p. absurd (ground (arith, own.idle));
          out_of_attempts = λ p. absurd (ground (arith, own.idle));
          lost_parent = λ p. absurd (ground (arith, own.idle));
        };
    apart = fresh-AreApart jobs pairs fresh;
    one_future = λ n. ground (arith, fresh-runs n jobs fresh);
    ended = sym (fresh-total end_load jobs (λ j p. ground arith) fresh);
    flagged = ground (arith, fresh-total lost_load jobs (λ j p. ground arith) fresh);
  }

  -- At the beginning of each round, whatever the workers return, the clock reads and the locks
  -- answer: no two jobs have one name; `running_jobs` names exactly the running jobs, and each has
  -- one future; the counters of a repo and of a hot area are the numbers of their running jobs and
  -- within the capacities; the parents in the plan of a running or passed job have passed; no job
  -- was tried more often than once and its retries, and a failed one was tried that often; a
  -- blocked job has a failed or blocked parent; no two jobs of a pair in the overlap graph run;
  -- `completed` is the number of jobs that ended, and `failed` is set exactly if one is lost.
  pub run_slice_scheduler-IsSound :
      (config : SchedulerConfig) (payloads : List SlicePayload) (locks : Locks)
      (rounds : List Round)
      → (let jobs = jobs_of payloads [] in
          IsSound config
            (overlap_pairs jobs (sorted_names jobs))
            []
            (run_slice_scheduler config payloads locks rounds))
  unfolding run_slice_scheduler
  run_slice_scheduler-IsSound config payloads locks rounds =
      let jobs = jobs_of payloads [] in
      let plan = jobs_of-IsPlan payloads [] (tt, tt) in
      run-IsSound L config (overlap_pairs jobs (sorted_names jobs))
        (overlap_pairs-AreDistinct jobs plan.0) rounds (initial jobs locks)
        (initial-IsSound config _ jobs locks plan)
