-- ===== src/Scheduler/Exclusive.antt =====
-- The semantic locks against the running jobs.
use softos_sdd_orchestrator.Prelude.{
  String, true, ◌≡◌, some, List, [], arith, ◌==◌, ◌&&◌, false, eq_iff,
}
use softos_sdd_orchestrator.Prelude.Lists.{contains}
use softos_sdd_orchestrator.Scheduler.Plan.{SlicePayload, Job, jobs_of, sorted_names, overlap_pairs}
use softos_sdd_orchestrator.Scheduler.State.{SchedulerConfig, LockTable, Sched}
use softos_sdd_orchestrator.Scheduler.Loop.{Round, is_running, find_job}
use softos_sdd_orchestrator.Scheduler.LocalLocks.{LocalTable, no_locks, local_locks}
use softos_sdd_orchestrator.Scheduler.LocalLaws.{local_locks-LockLaws}
use softos_sdd_orchestrator.Scheduler.Locking.{IsLocked, IsLocked-IsKept}
use softos_sdd_orchestrator.Scheduler.LockLaws.{LockLaws, IsHeld}
use softos_sdd_orchestrator.Scheduler.Kept.{run-kept}
use softos_sdd_orchestrator.Scheduler.Fresh.{jobs_of-IsPlan}
use softos_sdd_orchestrator.Scheduler.Pairs.{overlap_pairs-AreDistinct}
use softos_sdd_orchestrator.Scheduler.Whole.{
  initial, initial-IsSound, find-IsFresh, run_slice_scheduler,
}

-- Each running job owns its locks after any rounds.
pub run_slice_scheduler-IsHeld :
    (L : LockTable) (laws : LockLaws L) (config : SchedulerConfig) (payloads : List SlicePayload)
    (locks : L.Locks) (rounds : List Round)
    → (let s = run_slice_scheduler L config payloads locks rounds in IsHeld L laws s.jobs s.locks)
unfolding run_slice_scheduler initial
run_slice_scheduler-IsHeld L laws config payloads locks rounds =
    let jobs = jobs_of payloads [] in
    let pairs = overlap_pairs jobs (sorted_names jobs) in
    let plan = jobs_of-IsPlan payloads [] (tt, tt) in
    let kept =
      run-kept L config pairs (IsLocked L laws config pairs)
        (IsLocked-IsKept L laws config pairs (overlap_pairs-AreDistinct jobs plan.0)) rounds
        (initial L jobs locks)
        (
          initial-IsSound L config pairs jobs locks plan,
          λ n job lock found on l.
              absurd (ground (arith, (find-IsFresh L n job jobs plan.1 found).idle)),
        ) in
    kept.1

-- The state after the rounds of a run without a lock backend.
abbrev pub after : SchedulerConfig → List SlicePayload → List Round → Sched LocalTable
after config payloads rounds =
    run_slice_scheduler (local_locks config) config payloads no_locks rounds

-- Two different jobs that list the same semantic lock do not run at the same time in a run without
-- a lock backend, whatever the workers return and the clock reads.
pub semantic_locks_exclusive :
    (config : SchedulerConfig) (payloads : List SlicePayload) (rounds : List Round)
    (a b lock : String) (job_a job_b : Job)
    → find_job a ((after config payloads rounds).jobs) ≡ some job_a
    → find_job b ((after config payloads rounds).jobs) ≡ some job_b
    → contains lock job_a.semantic_locks ≡ true
    → contains lock job_b.semantic_locks ≡ true
    → (a == b) ≡ false
    → (is_running job_a && is_running job_b) ≡ false
semantic_locks_exclusive config payloads rounds a b lock job_a job_b found_a found_b in_a in_b
      unlike =
    let held =
      run_slice_scheduler-IsHeld (local_locks config) (local_locks-LockLaws config) config payloads
        no_locks rounds in
    ground (arith, held a job_a lock found_a, held b job_b lock found_b, eq_iff a b)
