-- ===== src/Scheduler/Cycles.antt =====
-- About plans whose dependencies have a cycle.
use softos_sdd_orchestrator.Prelude.{
  ℕ, zero, suc, ◌+◌, String, Bool, true, false, ◌≡◌, refl, sym, ◌∙◌, ap, subst, Option, none, some,
  List, [], ◌∷◌, arith, ◌==◌, eq_iff, if◌then◌else◌, Bool-cases, Option-cases, inl, inr, leb,
}
use mathlib.Core.Option
use mathlib.Core.Option.{some-injective, none-ne-some}
use softos_sdd_orchestrator.Prelude.Int.{ℤ, pos, negsuc}
use softos_sdd_orchestrator.Prelude.Lists.{contains}
use softos_sdd_orchestrator.Prelude.Order.{true-false}
use softos_sdd_orchestrator.Table.{update}
use softos_sdd_orchestrator.Table.Laws.{select-update}
use softos_sdd_orchestrator.Scheduler.Plan.{Job, WaitReason, slice_of, lock_wait, dag_wait}
use softos_sdd_orchestrator.Scheduler.State.{SchedulerConfig, LockTable, Sched, set_job}
use softos_sdd_orchestrator.Scheduler.Loop.{
  is_pending, is_passed, is_lost, find_job, failed_parent, waiting_parent, gate, mark_wait, start,
  try_locks, try_start, settle_failure, settle_job, Round,
}
use softos_sdd_orchestrator.Scheduler.Sound.{KeepsPlan}
use softos_sdd_orchestrator.Scheduler.Changes.{keeps_plan}

idle-is_passed : (job : Job) → is_pending job ≡ true → is_passed job ≡ false
idle-is_passed job idle = ground (arith, idle)

idle-is_lost : (job : Job) → is_pending job ≡ true → is_lost job ≡ false
idle-is_lost job idle = ground (arith, idle)

-- A job of the set waits: it is pending, one of its parents is in the set, and of its parents only
-- those of the set are in the plan.
pub record IsWaiting (S : String → Bool) (jobs : List Job) (name : String) : Type 0 where
  pub job : Job
  pub found : find_job name jobs ≡ some job
  pub idle : is_pending job ≡ true
  pub parent : String
  pub is_parent : contains parent job.depends_on ≡ true
  pub in_set : S parent ≡ true
  pub closed :
      (p : String) → contains p job.depends_on ≡ true → S p ≡ false → find_job p jobs ≡ none

-- The names of the set are those of jobs that wait for one another.
abbrev pub IsCycle : (String → Bool) → List Job → Type 0
IsCycle S jobs = (name : String) → S name ≡ true → IsWaiting S jobs name

module _ (S : String → Bool) where
  pub find-update :
      (name other : String) (f : Job → Job) (jobs : List Job)
      → KeepsPlan f
      → find_job other (update slice_of name f jobs)
        ≡ (if name == other then Option.map f (find_job other jobs) else find_job other jobs)
  find-update name other f jobs keeps = select-update slice_of name other f jobs keeps.slice_kept

  -- A change of a job that keeps the plan keeps the cycle, if the job is not in the set or stays pending.
  update-IsCycle :
      (name : String) (f : Job → Job) (jobs : List Job)
      → KeepsPlan f
      → ((job : Job) → S name ≡ true → is_pending (f job) ≡ is_pending job)
      → IsCycle S jobs
      → IsCycle S (update slice_of name f jobs)
  update-IsCycle name f jobs keeps idle_kept h other in_set = elim (Bool-cases (name == other)) [
    | inl same ↦
        let w : IsWaiting S jobs other = h other in_set in
        let e : name ≡ other = (eq_iff name other).0 same in
        record {
          job = f w.job;
          found = find-update name other f jobs keeps ∙ rw same (ap (Option.map f) w.found);
          idle = idle_kept w.job (subst (λ n. S n ≡ true) (sym e) in_set) ∙ w.idle;
          parent = w.parent;
          is_parent = ap (contains w.parent) (keeps.parents_kept w.job) ∙ w.is_parent;
          in_set = w.in_set;
          closed = λ p held out.
              gone p (w.closed p (sym (ap (contains p) (keeps.parents_kept w.job)) ∙ held) out);
        }
    | inr differ ↦
        let w : IsWaiting S jobs other = h other in_set in
        record {
          job = w.job;
          found = find-update name other f jobs keeps ∙ rw differ w.found;
          idle = w.idle;
          parent = w.parent;
          is_parent = w.is_parent;
          in_set = w.in_set;
          closed = λ p held out. gone p (w.closed p held out);
        }
  ]
    where
      gone : (p : String) → find_job p jobs ≡ none → find_job p (update slice_of name f jobs) ≡ none
      gone p absent = find-update name p f jobs keeps ∙ ground (arith, absent)

  -- A job of the cycle has a parent that has not passed, and none that is lost.
  waiting_parent-IsWaiting :
      (jobs : List Job) (parents : List String) (parent : String)
      → IsCycle S jobs
      → contains parent parents ≡ true
      → S parent ≡ true
      → (p : String) × (waiting_parent jobs parents ≡ some p)
  unfolding waiting_parent
  waiting_parent-IsWaiting jobs [] parent h held in_set = absurd (true-false (sym held))
  waiting_parent-IsWaiting jobs (q ∷ parents) parent h held in_set =
      elim (Bool-cases (q == parent)) [
        | inl same ↦
            let w : IsWaiting S jobs q =
              h q (subst (λ n. S n ≡ true) (sym ((eq_iff q parent).0 same)) in_set) in
            (q, rw (w.found, waiting_parent) (rw (idle-is_passed w.job w.idle) refl))
        | inr other ↦
            let (p, rest) =
              waiting_parent-IsWaiting jobs parents parent h (rw other at held) in_set in
            elim (Option-cases (find_job q jobs)) [
              | inl absent ↦ (p, rw (absent, waiting_parent) rest)
              | inr (job, found) ↦ elim (Bool-cases (is_passed job)) [
                | inl past ↦ (p, rw (found, waiting_parent) (rw past rest))
                | inr not_yet ↦ (q, rw (found, waiting_parent) (rw not_yet refl))
              ]
            ]
      ]

  pub failed_parent-IsCycle :
      (jobs : List Job) (parents : List String)
      → IsCycle S jobs
      → ((p : String) → contains p parents ≡ true → S p ≡ false → find_job p jobs ≡ none)
      → failed_parent jobs parents ≡ none
  unfolding failed_parent
  failed_parent-IsCycle jobs [] h closed = refl
  failed_parent-IsCycle jobs (q ∷ parents) h closed =
      let rest : failed_parent jobs parents ≡ none =
        failed_parent-IsCycle jobs parents h (λ p held out. closed p (ground (arith, held)) out) in
      elim (Bool-cases (S q)) [
        | inl in_set ↦
            let w : IsWaiting S jobs q = h q in_set in
            rw (w.found, failed_parent) (rw (idle-is_lost w.job w.idle) rest)
        | inr out ↦ rw (closed q (ground (arith, eq_iff q q)) out, failed_parent) rest
      ]

  -- The jobs after a change of the job of this name.
  pub data Changed (name : String) (jobs : List Job) : List Job → Type 0 where
    changed : (f : Job → Job) → KeepsPlan f → Changed name jobs (update slice_of name f jobs)

  pub Changed-IsCycle :
      (name : String) (jobs after : List Job)
      → S name ≡ false
      → Changed name jobs after
      → IsCycle S jobs
      → IsCycle S after
  Changed-IsCycle name jobs _ out (changed f keeps) h =
      update-IsCycle name f jobs keeps (λ job in_set. absurd (true-false (sym in_set ∙ out))) h

  -- A job that is not pending is not in the set.
  pub outside :
      (name : String) (job : Job) (jobs : List Job)
      → IsCycle S jobs
      → find_job name jobs ≡ some job
      → is_pending job ≡ false
      → S name ≡ false
  outside name job jobs h found busy = elim (Bool-cases (S name)) [
    | inr out ↦ out
    | inl in_set ↦
        let w : IsWaiting S jobs name = h name in_set in
        let same : w.job ≡ job = some-injective w.job job (sym w.found ∙ found) in
        absurd (true-false (sym w.idle ∙ ap is_pending same ∙ busy))
  ]

module _ (L : LockTable) (config : SchedulerConfig) (pairs : List (String × String))
    (S : String → Bool) where
  open L use {Locks, acquire, release, heartbeat}

  settle_failure-Changed :
      (job : Job) (rc : ℤ) (s : Sched Locks)
      → Changed S job.slice s.jobs (settle_failure L config pairs job rc s).jobs
  unfolding settle_failure set_job
  settle_failure-Changed job rc s =
      elim (Bool-cases (leb (config.max_retries_execution + 1) job.attempt)) [
        | inl out ↦ rw (out, settle_failure) (changed _ (keeps_plan (λ j. refl)))
        | inr more ↦ rw (more, settle_failure) (changed _ (keeps_plan (λ j. refl)))
      ]

  pub settle_job-Changed :
      (job : Job) (worker : ℕ) (rc : ℤ) (s : Sched Locks)
      → Changed S job.slice s.jobs (settle_job L config pairs job worker rc s).jobs
  unfolding settle_job set_job
  settle_job-Changed job worker (pos zero) s = changed _ (keeps_plan (λ j. refl))
  settle_job-Changed job worker (pos (suc n)) s = settle_failure-Changed job (pos (suc n)) s
  settle_job-Changed job worker (negsuc n) s = settle_failure-Changed job (negsuc n) s

  mark_wait-IsCycle :
      (job : Job) (reason : WaitReason) (s : Sched Locks)
      → IsCycle S s.jobs
      → IsCycle S (mark_wait L config pairs job reason s).jobs
  unfolding mark_wait set_job
  mark_wait-IsCycle job reason s h =
      update-IsCycle S job.slice _ s.jobs (keeps_plan (λ j. refl)) (λ j _. refl) h

  try_locks-IsCycle :
      (job : Job) (answer : Option String × Locks) (s : Sched Locks)
      → S job.slice ≡ false
      → IsCycle S s.jobs
      → IsCycle S (try_locks L config pairs job answer s).jobs
  unfolding try_locks start set_job
  try_locks-IsCycle job (some reason, locks) s out h =
      mark_wait-IsCycle job (lock_wait reason) (record s { locks = locks }) h
  try_locks-IsCycle job (none, locks) s out h =
      Changed-IsCycle S job.slice s.jobs _ out (changed _ (keeps_plan (λ j. refl))) h

  -- The gate is shut for a job of the cycle.
  gate-IsCycle :
      (job : Job) (s : Sched Locks)
      → IsCycle S s.jobs
      → find_job job.slice s.jobs ≡ some job
      → S job.slice ≡ true
      → (reason : WaitReason) × (gate L config pairs s job ≡ some reason)
  unfolding gate
  gate-IsCycle job s h found in_set =
      let w : IsWaiting S s.jobs job.slice = h job.slice in_set in
      let same : w.job ≡ job = some-injective w.job job (sym w.found ∙ found) in
      let (p, waits) =
        waiting_parent-IsWaiting S s.jobs job.depends_on w.parent h
          (subst (λ (j : Job). contains w.parent j.depends_on ≡ true) same w.is_parent) w.in_set in
      (dag_wait p, rw (waits, gate) refl)

  pub try_start-IsCycle :
      (round : Round) (job : Job) (s : Sched Locks)
      → IsCycle S s.jobs
      → find_job job.slice s.jobs ≡ some job
      → IsCycle S (try_start L config pairs round job s).jobs
  unfolding try_start
  try_start-IsCycle round job s h found = elim (Option-cases (gate L config pairs s job)) [
    | inr (reason, shut) ↦ rw (shut, try_start) (mark_wait-IsCycle job reason s h)
    | inl free ↦
        rw (free, try_start)
          (try_locks-IsCycle job (acquire (round.acquire_time job.slice) s.running_jobs job s.locks)
            s
            (elim (Bool-cases (S job.slice)) [
              | inr out ↦ out
              | inl in_set ↦
                  let (reason, shut) = gate-IsCycle job s h found in_set in
                  absurd (none-ne-some reason (sym free ∙ shut))
            ])
            h)
  ]
