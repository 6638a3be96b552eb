-- ===== src/Scheduler/Ready.antt =====
-- A pending job that can be started when nothing runs, and that the schedule of a round starts one.
use softos_sdd_orchestrator.Prelude.{
  ℕ, ◌≤◌, String, Bool, true, false, ◌≡◌, refl, sym, ◌∙◌, ap, subst, Option, none, some, List, [],
  ◌∷◌, ◌++◌, arith, ◌==◌, eq_iff, Bool-cases, Option-cases, inl, inr, leb,
}
use mathlib.Core.Option.{none-ne-some, some-injective}
use softos_sdd_orchestrator.Prelude.Lists.{contains}
use softos_sdd_orchestrator.Table.{select}
use softos_sdd_orchestrator.Table.Laws.{IsUnique}
use softos_sdd_orchestrator.Table.Count.{total}
use softos_sdd_orchestrator.Scheduler.Plan.{Job, WaitReason, slice_of, lock_wait}
use softos_sdd_orchestrator.Scheduler.State.{SchedulerConfig, LockTable, Sched, set_job}
use softos_sdd_orchestrator.Scheduler.Loop.{
  is_pending, is_running, find_job, waiting_parent, full_area, overlapping, gate, mark_wait, start,
  try_locks, try_start, visit, schedule, Round,
}
use softos_sdd_orchestrator.Scheduler.Sound.{IsSound, AreDistinct, runs, repo_load, area_load}
use softos_sdd_orchestrator.Scheduler.Changes.{keeps_plan, find-set, waiting-set}
use softos_sdd_orchestrator.Scheduler.Idle.{IdleLaws, IsOnly}

-- A test on a list of names: whether it has one.
abbrev pub has_some : List String → Bool
has_some [] = false
has_some (name ∷ names) = true

-- Weights of running jobs add up to nothing when none runs.
pub idle-total :
    (weight : Job → ℕ) (jobs : List Job)
    → ((job : Job) → is_running job ≡ false → weight job ≡ 0)
    → IsUnique slice_of jobs
    → ((name : String) → runs name jobs ≡ false)
    → total weight jobs ≡ 0
unfolding total select
idle-total weight [] light unique idle = refl
idle-total weight (job ∷ jobs) light (fresh, unique) idle =
    let own : is_running job ≡ false = ground (arith, idle job.slice, eq_iff job.slice job.slice) in
    let others : (name : String) → runs name jobs ≡ false = λ (name : String).
      elim (Bool-cases (job.slice == name)) [
        | inl same ↦
            rw
              (
                subst (λ n. select slice_of n jobs ≡ none) ((eq_iff job.slice name).0 same) fresh,
                runs,
              )
              refl
        | inr other ↦ ground (arith, idle name, other)
      ] in
    omega (arith, light job own, idle-total weight jobs light unique others)

full_area-idle :
    (capacity : ℕ) (counts : String → ℕ) (areas : List String)
    → 1 ≤ capacity
    → ((area : String) → counts area ≡ 0)
    → full_area capacity counts areas ≡ none
unfolding full_area
full_area-idle capacity counts [] room empty = refl
full_area-idle capacity counts (area ∷ areas) room empty =
    ground (arith, room, empty area, full_area-idle capacity counts areas room empty)

overlapping-idle :
    (slice : String) (pairs : List (String × String)) → overlapping slice [] pairs ≡ none
unfolding overlapping
overlapping-idle slice [] = refl
overlapping-idle slice ((left, right) ∷ pairs) = ground (arith, overlapping-idle slice pairs)

-- A job that waits for no parent.
pub record IsStartable {Locks : Type 0} (s : Sched Locks) (name : String) : Type 0 where
  pub job : Job
  pub found : find_job name s.jobs ≡ some job
  pub idle : is_pending job ≡ true
  pub free : waiting_parent s.jobs job.depends_on ≡ none

module _ (L : LockTable) (laws : IdleLaws L) (config : SchedulerConfig)
    (pairs : List (String × String)) (distinct : AreDistinct pairs)
    (repo_room : 1 ≤ config.per_repo_capacity) (area_room : 1 ≤ config.per_hot_area_capacity) where
  open L use {Locks, acquire, release, heartbeat}

  -- A sound state in which nothing runs, and no lock is owned.
  abbrev pub IsQuiet : Sched Locks → Type 0
  IsQuiet s = (IsSound config pairs [] s × IsOnly L laws config pairs s) × (s.running_jobs ≡ [])

  pub quiet-runs : (s : Sched Locks) → IsQuiet s → (name : String) → runs name s.jobs ≡ false
  quiet-runs s ((sound, _), none_run) name = sym (sound.listed name) ∙ ap (contains name) none_run

  pub gate-IsStartable :
      (s : Sched Locks) (job : Job)
      → IsQuiet s
      → waiting_parent s.jobs job.depends_on ≡ none
      → gate L config pairs s job ≡ none
  unfolding gate
  gate-IsStartable s job quiet free =
      let ((sound, _), none_run) = quiet in
      let repo : s.running_by_repo job.repo ≡ 0 =
        sound.repo_counted job.repo
        ∙ idle-total (repo_load job.repo) s.jobs (λ j h. ground (arith, h)) sound.unique
            (quiet-runs s quiet) in
      let area : (a : String) → s.running_by_hot_area a ≡ 0 = λ (a : String).
        sound.area_counted a
        ∙ idle-total (area_load a) s.jobs (λ j h. ground (arith, h)) sound.unique
            (quiet-runs s quiet) in
      let below : leb config.per_repo_capacity (s.running_by_repo job.repo) ≡ false =
        ground (arith, repo, repo_room) in
      let room : full_area config.per_hot_area_capacity s.running_by_hot_area job.hot_areas ≡ none =
        full_area-idle config.per_hot_area_capacity s.running_by_hot_area job.hot_areas area_room
          area in
      let apart : overlapping job.slice s.running_jobs pairs ≡ none =
        subst (λ r. overlapping job.slice r pairs ≡ none) (sym none_run)
          (overlapping-idle job.slice pairs) in
      rw (free, gate) (rw below (rw room (rw apart refl)))

  -- What a job that waits and a job that starts keep, a visit keeps.
  module _ (P : Sched Locks → Type 0)
      (waits : (job : Job) (reason : WaitReason) (locks : Locks) (s : Sched Locks)
        → P s
        → P (mark_wait L config pairs job reason (record s { locks = locks })))
      (starts : (job : Job) (locks : Locks) (s : Sched Locks)
        → P s
        → P (start L config pairs job (record s { locks = locks }))) where
    try_locks_kept :
        (job : Job) (answer : Option String × Locks) (s : Sched Locks)
        → P s
        → P (try_locks L config pairs job answer s)
    unfolding try_locks
    try_locks_kept job (some reason, locks) s h = waits job (lock_wait reason) locks s h
    try_locks_kept job (none, locks) s h = starts job locks s h

    visit_kept :
        (round : Round) (name : String) (s : Sched Locks)
        → P s
        → P (visit L config pairs round name s)
    unfolding visit try_start
    visit_kept round name s h = elim (Bool-cases (contains name s.running_jobs)) [
      | inl on ↦ rw (on, visit) h
      | inr off ↦ elim (Option-cases (find_job name s.jobs)) [
        | inl absent ↦ rw (off, visit) (rw absent h)
        | inr (job, found) ↦ elim (Bool-cases (is_pending job)) [
          | inr over ↦ rw (off, visit) (rw found (rw over h))
          | inl idle ↦ elim (Option-cases (gate L config pairs s job)) [
            | inr (reason, shut) ↦
                rw (off, visit)
                  (rw found (rw idle (rw (shut, try_start) (waits job reason s.locks s h))))
            | inl free ↦
                rw (off, visit)
                  (rw found (rw idle (rw (free, try_start) (try_locks_kept job _ s h))))
          ]
        ]
      ]
    ]

    schedule_kept :
        (round : Round) (names : List String) (s : Sched Locks)
        → P s
        → P (schedule L config pairs round names s)
    unfolding schedule
    schedule_kept round [] s h = h
    schedule_kept round (name ∷ names) s h =
        schedule_kept round names (visit L config pairs round name s) (visit_kept round name s h)

  pub schedule-has_some :
      (round : Round) (names : List String) (s : Sched Locks)
      → has_some s.running_jobs ≡ true
      → has_some (schedule L config pairs round names s).running_jobs ≡ true
  unfolding mark_wait start set_job
  schedule-has_some =
      schedule_kept (λ s. has_some s.running_jobs ≡ true) (λ job reason locks s h. h)
        (λ job locks s h. refl)

  pub schedule-completed :
      (round : Round) (names : List String) (s : Sched Locks) (n : ℕ)
      → s.completed ≡ n
      → (schedule L config pairs round names s).completed ≡ n
  unfolding mark_wait start set_job
  schedule-completed round names s n h =
      schedule_kept (λ t. t.completed ≡ n) (λ job reason locks t e. e) (λ job locks t e. e) round
        names s h

  pub started :
      (job : Job) (answer : Option String × Locks) (s : Sched Locks)
      → answer.0 ≡ none
      → has_some (try_locks L config pairs job answer s).running_jobs ≡ true
  unfolding try_locks start set_job
  started job (some reason, locks) s h = absurd (none-ne-some reason (sym h))
  started job (none, locks) s h = refl

  pub mark_wait-IsStartable :
      (job : Job) (reason : WaitReason) (s : Sched Locks) (name : String)
      → find_job job.slice s.jobs ≡ some job
      → is_pending job ≡ true
      → IsStartable s name
      → IsStartable (mark_wait L config pairs job reason s) name
  unfolding mark_wait set_job
  mark_wait-IsStartable job reason s name found idle h =
      let f : Job → Job = λ j. record j { wait_reasons = j.wait_reasons ++ reason ∷ [] } in
      elim (Bool-cases (job.slice == name)) [
        | inr other ↦ record {
          job = h.job;
          found =
              find-set job.slice job f s.jobs found (keeps_plan (λ j. refl)) name
              ∙ rw other h.found;
          idle = h.idle;
          free =
              waiting-set job.slice job f s.jobs found (keeps_plan (λ j. refl)) h.job.depends_on
                (λ e. e) h.free;
        }
        | inl same ↦
            let e : job ≡ h.job = some-injective job h.job (
              sym found
              ∙ subst (λ n. find_job n s.jobs ≡ some h.job) (sym ((eq_iff job.slice name).0 same))
                  h.found) in
            record {
              job = f job;
              found =
                  find-set job.slice job f s.jobs found (keeps_plan (λ j. refl)) name
                  ∙ rw same refl;
              idle = idle;
              free =
                  waiting-set job.slice job f s.jobs found (keeps_plan (λ j. refl)) job.depends_on
                    (λ p. p)
                    (subst (λ (j : Job). waiting_parent s.jobs j.depends_on ≡ none) (sym e) h.free);
            }
      ]
