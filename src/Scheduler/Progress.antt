-- ===== src/Scheduler/Progress.antt =====
-- That a round of `run_slice_scheduler` does something, when the plan has no cycle and nothing runs.
use softos_sdd_orchestrator.Prelude.{
  ℕ, ◌≤◌, ◌<◌, String, true, ◌≡◌, ◌⊎◌, refl, sym, ap, subst, List, [], ◌∷◌, arith, eq_iff, inl, inr,
}
use softos_sdd_orchestrator.Prelude.Lists.{length}
use softos_sdd_orchestrator.Table.Count.{total}
use softos_sdd_orchestrator.Scheduler.Plan.{sorted_names}
use softos_sdd_orchestrator.Scheduler.State.{SchedulerConfig, LockTable, Sched}
use softos_sdd_orchestrator.Scheduler.Loop.{finalize, block_all, schedule, Round, round_step}
use softos_sdd_orchestrator.Scheduler.Sound.{AreDistinct, future_load}
use softos_sdd_orchestrator.Scheduler.Idle.{IdleLaws, IsOnly-IsKept}
use softos_sdd_orchestrator.Scheduler.SamePlan.{IsRanked}
use softos_sdd_orchestrator.Scheduler.Ready.{has_some, IsQuiet, quiet-runs, schedule-completed}
use softos_sdd_orchestrator.Scheduler.Starts.{schedule-starts}
use softos_sdd_orchestrator.Scheduler.Minimal.{startable, some_pending, contains-sorted_names}
use softos_sdd_orchestrator.Scheduler.Blocks.{block_all-outcome}

no_futures :
    (futures : List (String × ℕ))
    → ((name : String) → total (future_load name) futures ≡ 0)
    → futures ≡ []
unfolding total
no_futures [] h = refl
no_futures ((name, worker) ∷ futures) h = absurd (ground (arith, h name, eq_iff name name))

module _ (L : LockTable) (laws : IdleLaws L) (config : SchedulerConfig)
    (pairs : List (String × String)) (distinct : AreDistinct pairs)
    (repo_room : 1 ≤ config.per_repo_capacity) (area_room : 1 ≤ config.per_hot_area_capacity)
    (rank : String → ℕ) where
  open L use {Locks, acquire, release, heartbeat}

  -- What is left of a round, when no future was there.
  quiet_progress :
      (round : Round) (s : Sched Locks)
      → IsQuiet L laws config pairs distinct repo_room area_room s
      → IsRanked rank s.jobs
      → s.completed < length s.jobs
      → (let t =
            schedule L config pairs round
              (sorted_names s.jobs)
              (block_all L config pairs (sorted_names s.jobs) s) in
          (s.completed < t.completed) ⊎ (has_some t.running_jobs ≡ true))
  quiet_progress round s quiet ranked more =
      let names = sorted_names s.jobs in
      let ((sound, only), none_run) = quiet in
      let idle = quiet-runs L laws config pairs distinct repo_room area_room s quiet in
      elim (block_all-outcome L config pairs names s) [
        | inl grew ↦ inl (
            omega (
              arith,
              grew,
              schedule-completed L laws config pairs distinct repo_room area_room round names
                  (block_all L config pairs names s) (block_all L config pairs names s).completed
                  refl,
            ))
        | inr (same, fine) ↦
            let (first, (job, found, pends)) =
              some_pending s.jobs sound.unique idle (omega (arith, more, sound.ended)) in
            let (name, ready) =
              startable s rank ranked idle
                (λ n j there waits. fine n (contains-sorted_names n j s.jobs there) j there waits)
                first job found pends in
            inr (
              subst
                (λ (t : Sched Locks).
                  has_some (schedule L config pairs round names t).running_jobs ≡ true)
                (sym same)
                (schedule-starts L laws config pairs distinct repo_room area_room round names name s
                  (contains-sorted_names name ready.job s.jobs ready.found) (quiet, ready)))
      ]

  pub round_step-progress :
      (round : Round) (s : Sched Locks)
      → IsQuiet L laws config pairs distinct repo_room area_room s
      → IsRanked rank s.jobs
      → s.completed < length s.jobs
      → (let t = round_step L config pairs round s in
          (s.completed < t.completed) ⊎ (has_some t.running_jobs ≡ true))
  unfolding round_step finalize total
  round_step-progress round s quiet ranked more =
      let ((sound, only), none_run) = quiet in
      let empty : s.futures ≡ [] = no_futures s.futures (λ n. ground (
        arith,
        sound.one_future n,
        quiet-runs L laws config pairs distinct repo_room area_room s quiet n,
      )) in
      let kept = IsOnly-IsKept L laws config pairs distinct in
      let beaten = kept.at_heartbeat round.heartbeat_time s (sound, only) in
      let cleared =
        kept.at_futures [] [] []
          (record s { locks = heartbeat round.heartbeat_time s.running_jobs s.locks })
          (λ n. omega (arith, ap (λ fs. total (future_load n) fs) empty)) beaten in
      rw empty (
        quiet_progress round
          (record s { locks = heartbeat round.heartbeat_time s.running_jobs s.locks; futures = [] })
          (cleared, none_run) ranked more)
