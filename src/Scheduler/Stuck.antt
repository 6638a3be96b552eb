-- ===== src/Scheduler/Stuck.antt =====
-- About the loop of `run_slice_scheduler` on a plan with a cycle.
use softos_sdd_orchestrator.Prelude.{
  ℕ, ◌<◌, ◌≤◌, String, Bool, true, false, ◌≡◌, refl, sym, ◌∙◌, ap, subst, none, some, List, [], ◌∷◌,
  arith, ◌==◌, Bool-cases, inl, inr, ltb, lt→ltb,
}
use mathlib.Core.Option.{none-ne-some, some-injective}
use softos_sdd_orchestrator.Prelude.Int.{ℤ}
use softos_sdd_orchestrator.Prelude.Lists.{length}
use softos_sdd_orchestrator.Table.{select}
use softos_sdd_orchestrator.Table.Count.{total}
use softos_sdd_orchestrator.Scheduler.Plan.{Job, SlicePayload, jobs_of, sorted_names, overlap_pairs}
use softos_sdd_orchestrator.Scheduler.State.{SchedulerConfig, LockTable, Sched, set_job}
use softos_sdd_orchestrator.Scheduler.Loop.{
  is_pending, is_running, find_job, failed_parent, finish, mark_blocked, run,
}
use softos_sdd_orchestrator.Scheduler.Sound.{IsSound, AreDistinct, end_load}
use softos_sdd_orchestrator.Scheduler.Changes.{keeps_plan}
use softos_sdd_orchestrator.Scheduler.Kept.{IsKept, run-kept}
use softos_sdd_orchestrator.Scheduler.Rounds.{IsSound-IsKept}
use softos_sdd_orchestrator.Scheduler.Fresh.{jobs_of-IsPlan}
use softos_sdd_orchestrator.Scheduler.Pairs.{overlap_pairs-AreDistinct}
use softos_sdd_orchestrator.Scheduler.Loop.{Round}
use softos_sdd_orchestrator.Scheduler.Ended.{total-length}
use softos_sdd_orchestrator.Scheduler.Whole.{initial, initial-IsSound, run_slice_scheduler}
use softos_sdd_orchestrator.Scheduler.Cycles.{
  IsWaiting, IsCycle, changed, Changed-IsCycle, outside, failed_parent-IsCycle, settle_job-Changed,
  try_start-IsCycle,
}

running-idle : (job : Job) → is_running job ≡ true → is_pending job ≡ false
running-idle job on = ground (arith, on)

module _ (L : LockTable) (config : SchedulerConfig) (pairs : List (String × String))
    (distinct : AreDistinct pairs) (S : String → Bool) where
  open L use {Locks, acquire, release, heartbeat}

  finish-IsCycle :
      (job : Job) (worker : ℕ) (rc : ℤ) (s : Sched Locks)
      → IsCycle S s.jobs
      → find_job job.slice s.jobs ≡ some job
      → is_running job ≡ true
      → IsCycle S (finish L config pairs job worker rc s).jobs
  unfolding finish
  finish-IsCycle job worker rc s h found on =
      Changed-IsCycle S job.slice s.jobs _
        (outside S job.slice job s.jobs h found (running-idle job on))
        (settle_job-Changed L config pairs S job worker rc _) h

  mark_blocked-IsCycle :
      (name parent : String) (job : Job) (s : Sched Locks)
      → IsCycle S s.jobs
      → find_job name s.jobs ≡ some job
      → failed_parent s.jobs job.depends_on ≡ some parent
      → IsCycle S (mark_blocked L config pairs name parent s).jobs
  unfolding mark_blocked set_job
  mark_blocked-IsCycle name parent job s h found lost =
      Changed-IsCycle S name s.jobs _ out (changed _ (keeps_plan (λ j. refl))) h
    where
      out : S name ≡ false
      out = elim (Bool-cases (S name)) [
        | inr not_in ↦ not_in
        | inl in_set ↦
            let w : IsWaiting S s.jobs name = h name in_set in
            let same : w.job ≡ job = some-injective w.job job (sym w.found ∙ found) in
            let fine : failed_parent s.jobs w.job.depends_on ≡ none =
              failed_parent-IsCycle S s.jobs w.job.depends_on h w.closed in
            absurd (
              none-ne-some parent
                (sym fine ∙ ap (λ (j : Job). failed_parent s.jobs j.depends_on) same ∙ lost))
      ]

  IsCycle-IsKept : IsKept L config pairs (λ rest s. IsSound config pairs rest s × IsCycle S s.jobs)
  IsCycle-IsKept =
      let sound = IsSound-IsKept L config pairs distinct in
      record {
        sound = λ rest s (h, _). h;
        at_futures =
            λ rest others futures s same (h, c). (sound.at_futures rest others futures s same h, c);
        at_heartbeat = λ now s (h, c). (sound.at_heartbeat now s h, c);
        at_finish = λ rest job worker rc s (h, c) found on. (
          sound.at_finish rest job worker rc s h found on,
          finish-IsCycle job worker rc s c found on,
        );
        at_block = λ name parent job s (h, c) found idle lost. (
          sound.at_block name parent job s h found idle lost,
          mark_blocked-IsCycle name parent job s c found lost,
        );
        at_try = λ round job s (h, c) found idle. (
          sound.at_try round job s h found idle,
          try_start-IsCycle L config pairs S round job s c found,
        );
      }

-- A pending job is not counted as ended.
pending-total :
    (name : String) (job : Job) (jobs : List Job)
    → find_job name jobs ≡ some job
    → is_pending job ≡ true
    → total end_load jobs < length jobs
unfolding total select
pending-total name job [] found idle = absurd (none-ne-some job found)
pending-total name job (j ∷ jobs) found idle = elim (Bool-cases (j.slice == name)) [
  | inl same ↦
      let e : j ≡ job = some-injective j job (rw same at found) in
      let own : end_load j ≡ 0 = subst (λ i. end_load i ≡ 0) (sym e) (no_load job idle) in
      omega (arith, own, total-length jobs)
  | inr other ↦
      omega (arith, pending-total name job jobs (rw other at found) idle, end_load_at_most j)
]
  where
    no_load : (i : Job) → is_pending i ≡ true → end_load i ≡ 0
    no_load i h = ground (arith, h)

    end_load_at_most : (i : Job) → end_load i ≤ 1
    end_load_at_most i = ground arith

-- If a plan has a set of slices of which each depends on one of the set and, of the slices of the plan,
-- only on those of the set, the loop never ends: after any rounds, whatever the workers return, the
-- clock reads and the locks answer, each of them still waits and `completed` is below the number of
-- jobs.
pub run_slice_scheduler-IsCycle :
    (L : LockTable) (config : SchedulerConfig) (payloads : List SlicePayload) (locks : L.Locks)
    (rounds : List Round) (S : String → Bool) (name : String)
    → S name ≡ true
    → IsCycle S (jobs_of payloads [])
    → (let s = run_slice_scheduler L config payloads locks rounds in
        IsCycle S s.jobs × (ltb s.completed (length s.jobs) ≡ true))
unfolding run_slice_scheduler initial
run_slice_scheduler-IsCycle L config payloads locks rounds S name in_set cycle =
    let jobs = jobs_of payloads [] in
    let pairs = overlap_pairs jobs (sorted_names jobs) in
    let plan = jobs_of-IsPlan payloads [] (tt, tt) in
    let s = run L config pairs rounds (initial L jobs locks) in
    let (sound, kept) =
      run-kept L config pairs (λ rest t. IsSound config pairs rest t × IsCycle S t.jobs)
        (IsCycle-IsKept L config pairs (overlap_pairs-AreDistinct jobs plan.0) S) rounds
        (initial L jobs locks) (initial-IsSound L config pairs jobs locks plan, cycle) in
    let w : IsWaiting S s.jobs name = kept name in_set in
    (
      kept,
      lt→ltb s.completed (length s.jobs)
          (omega (arith, sound.ended, pending-total name w.job s.jobs w.found w.idle)),
    )
