-- ===== src/Scheduler/Ends.antt =====
-- That the loop of `run_slice_scheduler` ends, when the plan has no cycle.
use softos_sdd_orchestrator.Prelude.{
  ℕ, ◌+◌, ◌*◌, ◌≤◌, ◌<◌, String, false, not, ◌≡◌, ◌⊎◌, refl, sym, ◌∙◌, ap, List, [], ◌∷◌, arith,
  Bool-cases, inl, inr, ltb, ltb→lt,
}
use softos_sdd_orchestrator.Prelude.Lists.{length, All}
use softos_sdd_orchestrator.Prelude.Order.{true-false}
use softos_sdd_orchestrator.Table.Count.{total}
use softos_sdd_orchestrator.Scheduler.Plan.{Job, SlicePayload, jobs_of, sorted_names, overlap_pairs}
use softos_sdd_orchestrator.Scheduler.State.{SchedulerConfig, LockTable, Sched, set_job}
use softos_sdd_orchestrator.Scheduler.LocalLocks.{local_locks, no_locks}
use softos_sdd_orchestrator.Scheduler.Loop.{is_passed, mark_wait, Round, round_step, run}
use softos_sdd_orchestrator.Scheduler.Sound.{IsSound, AreDistinct}
use softos_sdd_orchestrator.Scheduler.Kept.{round_step-kept}
use softos_sdd_orchestrator.Scheduler.Fresh.{IsFresh, IsPlan, jobs_of-IsPlan}
use softos_sdd_orchestrator.Scheduler.Pairs.{overlap_pairs-AreDistinct}
use softos_sdd_orchestrator.Scheduler.Whole.{initial, initial-IsSound, run_slice_scheduler}
use softos_sdd_orchestrator.Scheduler.Ended.{HasEnded, every, loop_end}
use softos_sdd_orchestrator.Scheduler.Idle.{IdleLaws, IsOnly, IsOnly-IsKept}
use softos_sdd_orchestrator.Scheduler.LocalIdle.{local_locks-IdleLaws, no_locks-OnlyOf}
use softos_sdd_orchestrator.Scheduler.SamePlan.{IsRanked, IsSamePlan, IsSamePlan-IsKept}
use softos_sdd_orchestrator.Scheduler.Ready.{has_some}
use softos_sdd_orchestrator.Scheduler.Slack.{slack, left}
use softos_sdd_orchestrator.Scheduler.Shrinks.{Shrinks, Shrinks-IsKept}
use softos_sdd_orchestrator.Scheduler.Productive.{IsAnswering, round_step-left, round_step-at_most}
use softos_sdd_orchestrator.Scheduler.Progress.{round_step-progress}

-- From this state on, at least so many of the rounds are answering.
pub data Answered (L : LockTable) (config : SchedulerConfig) (pairs : List (String × String))
    : ℕ → List Round → Sched L.Locks → Type 0 where
  over : (s : Sched L.Locks) → Answered L config pairs 0 [] s
  timeout :
      (n : ℕ) (round : Round) (rounds : List Round) (s : Sched L.Locks)
      → Answered L config pairs n rounds (round_step L config pairs round s)
      → Answered L config pairs n (round ∷ rounds) s
  answer :
      (n : ℕ) (round : Round) (rounds : List Round) (s : Sched L.Locks)
      → IsAnswering round s
      → Answered L config pairs n rounds (round_step L config pairs round s)
      → Answered L config pairs (n + 1) (round ∷ rounds) s

module _ (L : LockTable) (laws : IdleLaws L) (config : SchedulerConfig)
    (pairs : List (String × String)) (distinct : AreDistinct pairs)
    (repo_room : 1 ≤ config.per_repo_capacity) (area_room : 1 ≤ config.per_hot_area_capacity)
    (rank : String → ℕ) (plan : List Job) (ranked : IsRanked rank plan) where
  open L use {Locks, acquire, release, heartbeat}

  -- What each round keeps.
  record IsOrderly (s : Sched Locks) : Type 0 where
    sound : IsSound config pairs [] s
    only : IsOnly L laws config pairs s
    same_plan : IsSamePlan plan s.jobs

  round_step-IsOrderly :
      (round : Round) (s : Sched Locks)
      → IsOrderly s
      → IsOrderly (round_step L config pairs round s)
  round_step-IsOrderly round s h =
      let owned =
        round_step-kept L config pairs
          (λ rest t. IsSound config pairs rest t × IsOnly L laws config pairs t)
          (IsOnly-IsKept L laws config pairs distinct) round s (h.sound, h.only) in
      let planned =
        round_step-kept L config pairs
          (λ rest t. IsSound config pairs rest t × IsSamePlan plan t.jobs)
          (IsSamePlan-IsKept L config pairs plan distinct) round s (h.sound, h.same_plan) in
      record { sound = owned.0; only = owned.1; same_plan = planned.1 }

  -- When nothing runs, a round that only waits makes no progress.
  quiet_left :
      (round : Round) (s : Sched Locks)
      → IsOrderly s
      → s.running_jobs ≡ []
      → s.completed < length s.jobs
      → left L config pairs (round_step L config pairs round s) < left L config pairs s
  unfolding mark_wait set_job
  quiet_left round s h none_run more =
      let n = left L config pairs s in
      let Q : Sched Locks → Type 0 =
        λ (t : Sched Locks). (t.completed ≡ s.completed) × (t.running_jobs ≡ []) in
      let progress =
        round_step-progress L laws config pairs distinct repo_room area_room rank round s
          ((h.sound, h.only), none_run)
          (λ name parent parents grandparents here held there.
            ranked name parent parents grandparents (sym (h.same_plan name) ∙ here) held
              (sym (h.same_plan parent) ∙ there))
          more in
      let (_, shrinks) =
        round_step-kept L config pairs
          (λ rest t.
            IsSound config pairs rest t
            × Shrinks L config pairs distinct n Q (λ _ _ q. q) (λ _ _ q. q) (λ _ _ _ q. q) t)
          (Shrinks-IsKept L config pairs distinct n Q (λ _ _ q. q) (λ _ _ q. q) (λ _ _ _ q. q))
          round s (h.sound, inr (refl, (refl, none_run))) in
      elim shrinks [
        | inl less ↦ less
        | inr (_, (counted, still)) ↦ elim progress [
          | inl grew ↦ absurd (omega (arith, counted, grew))
          | inr some_run ↦ absurd (true-false (sym some_run ∙ ap has_some still))
        ]
      ]

  answering-left :
      (round : Round) (s : Sched Locks)
      → IsOrderly s
      → IsAnswering round s
      → s.completed < length s.jobs
      → left L config pairs (round_step L config pairs round s) < left L config pairs s
  answering-left round s h (inl none_run) more = quiet_left round s h none_run more
  answering-left round s h (inr (name, (rc, on, answered))) more =
      round_step-left L config pairs distinct round s name rc h.sound on answered

  -- The loop has ended, or each answering round has taken something from what was left.
  run-left :
      (n : ℕ) (rounds : List Round) (s : Sched Locks)
      → Answered L config pairs n rounds s
      → IsOrderly s
      → (ltb (run L config pairs rounds s).completed (length (run L config pairs rounds s).jobs)
          ≡ false)
        ⊎ (n + left L config pairs (run L config pairs rounds s) ≤ left L config pairs s)
  unfolding run
  run-left _ _ _ (over s) h = inr (omega arith)
  run-left _ _ _ (timeout n round rounds s later) h =
      elim (Bool-cases (ltb s.completed (length s.jobs))) [
        | inr ended ↦ rw (ended, run) (inl ended)
        | inl more ↦
            rw (more, run)
              (elim (run-left n rounds _ later (round_step-IsOrderly round s h)) [
                | inl ended ↦ inl ended
                | inr less ↦ inr (
                    omega (arith, less, round_step-at_most L config pairs distinct round s h.sound))
              ])
      ]
  run-left _ _ _ (answer n round rounds s answering later) h =
      elim (Bool-cases (ltb s.completed (length s.jobs))) [
        | inr ended ↦ rw (ended, run) (inl ended)
        | inl more ↦
            rw (more, run)
              (elim (run-left n rounds _ later (round_step-IsOrderly round s h)) [
                | inl ended ↦ inl ended
                | inr less ↦ inr (
                    omega (
                      arith,
                      less,
                      answering-left round s h answering (ltb→lt s.completed (length s.jobs) more),
                    ))
              ])
      ]

fresh-left :
    (config : SchedulerConfig) (jobs : List Job)
    → All IsFresh jobs
    → total (slack config) jobs ≡ length jobs * (2 * config.max_retries_execution + 3)
unfolding total
fresh-left config [] fresh = omega arith
fresh-left config (job ∷ jobs) (fresh, others) =
    let own : slack config job ≡ 2 * config.max_retries_execution + 3 =
      ground (arith, fresh.idle, fresh.untried) in
    let rest = fresh-left config jobs others in
    omega (arith, own, rest, step (length jobs) (2 * config.max_retries_execution + 3))
  where
    step : (a b : ℕ) → (a + 1) * b ≡ a * b + b
    step a b = grind arith

initial-left :
    (L : LockTable) (config : SchedulerConfig) (pairs : List (String × String)) (jobs : List Job)
    (locks : L.Locks)
    → IsPlan jobs
    → left L config pairs (initial L jobs locks)
      ≡ length jobs * (2 * config.max_retries_execution + 3)
unfolding initial
initial-left L config pairs jobs locks plan = fresh-left config jobs plan.1

initial-IsOrderly :
    (config : SchedulerConfig) (pairs : List (String × String)) (distinct : AreDistinct pairs)
    (repo_room : 1 ≤ config.per_repo_capacity) (area_room : 1 ≤ config.per_hot_area_capacity)
    (rank : String → ℕ) (jobs : List Job) (ranked : IsRanked rank jobs)
    → IsPlan jobs
    → IsOrderly
        (local_locks config)
        (local_locks-IdleLaws config)
        config
        pairs
        distinct
        repo_room
        area_room
        rank
        jobs
        ranked
        (initial (local_locks config) jobs no_locks)
unfolding initial
initial-IsOrderly config pairs distinct repo_room area_room rank jobs ranked plan = record {
  sound = initial-IsSound (local_locks config) config pairs jobs no_locks plan;
  only = no_locks-OnlyOf config;
  same_plan = λ n. refl;
}

-- If the plan has no cycle (a rank puts each parent in the plan below its child), both capacities are at
-- least 1, and in more rounds than 2 * max_retries_execution + 3 for each job nothing runs or some running
-- job returns, whatever it returns and however many rounds time out between, then the loop on the local
-- locks has ended: `completed` is the number of jobs, each has passed, failed or been blocked, and `failed`
-- is set exactly if some job has not passed.
pub run_slice_scheduler_ends :
    (config : SchedulerConfig) (payloads : List SlicePayload) (rounds : List Round)
    (rank : String → ℕ) (n : ℕ)
    → 1 ≤ config.per_repo_capacity
    → 1 ≤ config.per_hot_area_capacity
    → IsRanked rank (jobs_of payloads [])
    → (let jobs = jobs_of payloads [] in
        Answered
          (local_locks config)
          config
          (overlap_pairs jobs (sorted_names jobs))
          n
          rounds
          (initial (local_locks config) jobs no_locks))
    → length (jobs_of payloads []) * (2 * config.max_retries_execution + 3) < n
    → (let s = run_slice_scheduler (local_locks config) config payloads no_locks rounds in
        (s.completed ≡ length s.jobs)
        × All HasEnded s.jobs
        × (s.any_failed ≡ not (every is_passed s.jobs)))
unfolding run_slice_scheduler
run_slice_scheduler_ends config payloads rounds rank n repo_room area_room ranked answered enough =
    let L = local_locks config in
    let jobs = jobs_of payloads [] in
    let pairs = overlap_pairs jobs (sorted_names jobs) in
    let plan = jobs_of-IsPlan payloads [] (tt, tt) in
    let ended : ltb (run L config pairs rounds (initial L jobs no_locks)).completed
          (length (run L config pairs rounds (initial L jobs no_locks)).jobs)
        ≡ false =
      elim (run-left L (local_locks-IdleLaws config) config pairs
        (overlap_pairs-AreDistinct jobs plan.0) repo_room area_room rank jobs ranked n rounds
        (initial L jobs no_locks) answered
        (initial-IsOrderly config pairs (overlap_pairs-AreDistinct jobs plan.0) repo_room area_room
          rank jobs ranked plan)) [
            | inl over_now ↦ over_now
            | inr less ↦
                absurd (omega (arith, less, enough, initial-left L config pairs jobs no_locks plan))
          ] in
    loop_end L config payloads no_locks rounds ended
