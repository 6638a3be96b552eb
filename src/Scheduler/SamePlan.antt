-- ===== src/Scheduler/SamePlan.antt =====
-- The dependencies of the plan stay what they are, through every round.
use softos_sdd_orchestrator.Prelude.{
  ℕ, ◌<◌, String, Bool, true, false, ◌≡◌, refl, ◌∙◌, ap, Option, none, some, List, ◌==◌,
  if◌then◌else◌, Bool-cases, Option-cases, inl, inr,
}
use mathlib.Core.Option
use softos_sdd_orchestrator.Prelude.Int.{ℤ}
use softos_sdd_orchestrator.Prelude.Lists.{contains}
use softos_sdd_orchestrator.Table.{update}
use softos_sdd_orchestrator.Scheduler.Plan.{Job, WaitReason, slice_of, lock_wait}
use softos_sdd_orchestrator.Scheduler.State.{SchedulerConfig, LockTable, Sched, set_job}
use softos_sdd_orchestrator.Scheduler.Loop.{
  find_job, gate, mark_wait, start, try_locks, try_start, finish, mark_blocked, Round,
}
use softos_sdd_orchestrator.Scheduler.Sound.{IsSound, AreDistinct, KeepsPlan}
use softos_sdd_orchestrator.Scheduler.Changes.{keeps_plan}
use softos_sdd_orchestrator.Scheduler.Cycles.{Changed, changed, settle_job-Changed, find-update}
use softos_sdd_orchestrator.Scheduler.Kept.{IsKept}
use softos_sdd_orchestrator.Scheduler.Rounds.{IsSound-IsKept}

abbrev pub parents_of : Option Job → Option (List String)
parents_of none = none
parents_of (some job) = some job.depends_on

-- The dependencies of the job of this name, if there is one.
abbrev pub parents_at : String → List Job → Option (List String)
parents_at name jobs = parents_of (find_job name jobs)

-- A rank that puts each parent in the plan below its child, so that no dependencies form a cycle.
abbrev pub IsRanked : (String → ℕ) → List Job → Type 0
IsRanked rank jobs =
    (name parent : String) (parents grandparents : List String)
    → parents_at name jobs ≡ some parents
    → contains parent parents ≡ true
    → parents_at parent jobs ≡ some grandparents
    → rank parent < rank name

-- The dependencies are those of the plan.
abbrev pub IsSamePlan : List Job → List Job → Type 0
IsSamePlan plan jobs = (name : String) → parents_at name jobs ≡ parents_at name plan

parents-update :
    (name other : String) (f : Job → Job) (jobs : List Job)
    → KeepsPlan f
    → parents_at other (update slice_of name f jobs) ≡ parents_at other jobs
parents-update name other f jobs keeps =
    ap parents_of (find-update (λ _. true) name other f jobs keeps) ∙ split (find_job other jobs)
  where
    split :
        (o : Option Job) → parents_of (if name == other then Option.map f o else o) ≡ parents_of o
    split o = elim (Bool-cases (name == other)) [
      | inr differ ↦ rw differ refl
      | inl same ↦ rw same (mapped o)
    ]
      where
        mapped : (o : Option Job) → parents_of (Option.map f o) ≡ parents_of o
        mapped none = refl
        mapped (some job) = ap some (keeps.parents_kept job)

Changed-IsSamePlan :
    (S : String → Bool) (name : String) (plan jobs after : List Job)
    → Changed S name jobs after
    → IsSamePlan plan jobs
    → IsSamePlan plan after
Changed-IsSamePlan S name plan jobs _ (changed f keeps) h other =
    parents-update name other f jobs keeps ∙ h other

module _ (L : LockTable) (config : SchedulerConfig) (pairs : List (String × String))
    (plan : List Job) where
  open L use {Locks, acquire, release, heartbeat}

  nothing : String → Bool
  nothing _ = false

  finish-IsSamePlan :
      (job : Job) (worker : ℕ) (rc : ℤ) (s : Sched Locks)
      → IsSamePlan plan s.jobs
      → IsSamePlan plan (finish L config pairs job worker rc s).jobs
  unfolding finish
  finish-IsSamePlan job worker rc s h =
      Changed-IsSamePlan nothing job.slice plan s.jobs _
        (settle_job-Changed L config pairs nothing job worker rc _) h

  mark_wait-IsSamePlan :
      (job : Job) (reason : WaitReason) (s : Sched Locks)
      → IsSamePlan plan s.jobs
      → IsSamePlan plan (mark_wait L config pairs job reason s).jobs
  unfolding mark_wait set_job
  mark_wait-IsSamePlan job reason s h name =
      parents-update job.slice name _ s.jobs (keeps_plan (λ j. refl)) ∙ h name

  try_locks-IsSamePlan :
      (job : Job) (answer : Option String × Locks) (s : Sched Locks)
      → IsSamePlan plan s.jobs
      → IsSamePlan plan (try_locks L config pairs job answer s).jobs
  unfolding try_locks start set_job
  try_locks-IsSamePlan job (some reason, locks) s h =
      mark_wait-IsSamePlan job (lock_wait reason) (record s { locks = locks }) h
  try_locks-IsSamePlan job (none, locks) s h =
      λ name. parents-update job.slice name _ s.jobs (keeps_plan (λ j. refl)) ∙ h name

  try_start-IsSamePlan :
      (round : Round) (job : Job) (s : Sched Locks)
      → IsSamePlan plan s.jobs
      → IsSamePlan plan (try_start L config pairs round job s).jobs
  unfolding try_start
  try_start-IsSamePlan round job s h = elim (Option-cases (gate L config pairs s job)) [
    | inr (reason, shut) ↦ rw (shut, try_start) (mark_wait-IsSamePlan job reason s h)
    | inl free ↦ rw (free, try_start) (try_locks-IsSamePlan job _ s h)
  ]

  mark_blocked-IsSamePlan :
      (name parent : String) (s : Sched Locks)
      → IsSamePlan plan s.jobs
      → IsSamePlan plan (mark_blocked L config pairs name parent s).jobs
  unfolding mark_blocked set_job
  mark_blocked-IsSamePlan name parent s h other =
      parents-update name other _ s.jobs (keeps_plan (λ j. refl)) ∙ h other

  pub IsSamePlan-IsKept :
      AreDistinct pairs
      → IsKept L config pairs (λ rest s. IsSound config pairs rest s × IsSamePlan plan s.jobs)
  IsSamePlan-IsKept distinct =
      let sound = IsSound-IsKept L config pairs distinct in
      record {
        sound = λ rest s (h, _). h;
        at_futures =
            λ rest others futures s same (h, c). (sound.at_futures rest others futures s same h, c);
        at_heartbeat = λ now s (h, c). (sound.at_heartbeat now s h, c);
        at_finish = λ rest job worker rc s (h, c) found on.
            (sound.at_finish rest job worker rc s h found on, finish-IsSamePlan job worker rc s c);
        at_block = λ name parent job s (h, c) found idle lost. (
          sound.at_block name parent job s h found idle lost,
          mark_blocked-IsSamePlan name parent s c,
        );
        at_try = λ round job s (h, c) found idle.
            (sound.at_try round job s h found idle, try_start-IsSamePlan round job s c);
      }
