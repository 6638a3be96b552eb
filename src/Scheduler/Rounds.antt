-- ===== src/Scheduler/Rounds.antt =====
-- The laws of the operations for the invariant of Sound.
use softos_sdd_orchestrator.Prelude.{String, List, []}
use softos_sdd_orchestrator.Scheduler.State.{SchedulerConfig, LockTable, Sched}
use softos_sdd_orchestrator.Scheduler.Loop.{Round, run}
use softos_sdd_orchestrator.Scheduler.Sound.{AreDistinct, IsSound}
use softos_sdd_orchestrator.Scheduler.Kept.{IsKept, run-kept}
use softos_sdd_orchestrator.Scheduler.Attempts.{futures-IsSound, blocked-IsSound, try_start-IsSound}
use softos_sdd_orchestrator.Scheduler.Preserve.{locks-IsSound, finish-IsSound}

module _ (L : LockTable) (config : SchedulerConfig) (pairs : List (String × String))
    (distinct : AreDistinct pairs) where
  pub IsSound-IsKept : IsKept L config pairs (λ rest s. IsSound config pairs rest s)
  IsSound-IsKept = record {
    sound = λ rest s h. h;
    at_futures = futures-IsSound L config pairs;
    at_heartbeat =
        λ now s h. locks-IsSound L config pairs [] s (L.heartbeat now s.running_jobs s.locks) h;
    at_finish = finish-IsSound L config pairs;
    at_block = blocked-IsSound L config pairs;
    at_try = try_start-IsSound L config pairs distinct;
  }

  pub run-IsSound :
      (rounds : List Round) (s : Sched L.Locks)
      → IsSound config pairs [] s
      → IsSound config pairs [] (run L config pairs rounds s)
  run-IsSound = run-kept L config pairs (λ rest s. IsSound config pairs rest s) IsSound-IsKept
