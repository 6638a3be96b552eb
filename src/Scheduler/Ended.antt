-- ===== src/Scheduler/Ended.antt =====
-- What holds when the `while` loop of `run_slice_scheduler` is over.
use softos_sdd_orchestrator.Prelude.{
  ◌≤◌, Bool, true, false, ◌≡◌, refl, List, [], ◌∷◌, arith, ◌||◌, ◌&&◌, ◌∙◌, not, ltb,
}
use softos_sdd_orchestrator.Prelude.Lists.{length, All}
use softos_sdd_orchestrator.Table.Count.{total}
use softos_sdd_orchestrator.Scheduler.Plan.{SlicePayload, Job}
use softos_sdd_orchestrator.Scheduler.State.{SchedulerConfig, LockTable}
use softos_sdd_orchestrator.Scheduler.Loop.{Round, is_passed, is_lost}
use softos_sdd_orchestrator.Scheduler.Sound.{end_load, lost_load}
use softos_sdd_orchestrator.Scheduler.Whole.{run_slice_scheduler, run_slice_scheduler-IsSound}

abbrev pub HasEnded : Job → Type 0
HasEnded job = (is_passed job || is_lost job) ≡ true

unfoldable pub every : (Job → Bool) → List Job → Bool
every test [] = true
every test (job ∷ jobs) = test job && every test jobs

pub total-length : (jobs : List Job) → total end_load jobs ≤ length jobs
unfolding total
total-length [] = omega arith
total-length (job ∷ jobs) = ground (arith, total-length jobs)

total-HasEnded : (jobs : List Job) → length jobs ≤ total end_load jobs → All HasEnded jobs
unfolding total
total-HasEnded [] h = tt
total-HasEnded (job ∷ jobs) h =
    (ground (arith, total-length jobs), total-HasEnded jobs (ground (arith, total-length jobs)))

lost-every :
    (jobs : List Job)
    → All HasEnded jobs
    → ltb 0 (total lost_load jobs) ≡ not (every is_passed jobs)
unfolding total every
lost-every [] h = refl
lost-every (job ∷ jobs) h = ground (arith, lost-every jobs h.1, h.0)

-- When the loop's condition fails, `completed` has counted each job once, each job has passed,
-- failed or been blocked, and `failed`, from which the report takes its status, is set exactly if
-- some job has not passed.
pub loop_end :
    (L : LockTable) (config : SchedulerConfig) (payloads : List SlicePayload) (locks : L.Locks)
    (rounds : List Round)
    → (let s = run_slice_scheduler L config payloads locks rounds in
        ltb s.completed (length s.jobs))
      ≡ false
    → (let s = run_slice_scheduler L config payloads locks rounds in
        (s.completed ≡ length s.jobs)
        × All HasEnded s.jobs
        × (s.any_failed ≡ not (every is_passed s.jobs)))
loop_end L config payloads locks rounds over =
    let s = run_slice_scheduler L config payloads locks rounds in
    let sound = run_slice_scheduler-IsSound L config payloads locks rounds in
    let ended : All HasEnded s.jobs = total-HasEnded s.jobs (ground (arith, sound.ended)) in
    (
      ground (arith, sound.ended, total-length s.jobs),
      ended,
      sound.flagged ∙ lost-every s.jobs ended,
    )
