-- ===== src/Scheduler/Sound.antt =====
-- The invariant of the scheduler between the statements of a round.
use softos_sdd_orchestrator.Prelude.{
  ℕ, ◌+◌, ◌≤◌, String, Bool, true, false, ◌≡◌, none, some, List, [], ◌∷◌, ◌==◌, ◌&&◌, ◌||◌,
  if◌then◌else◌, ltb,
}
use softos_sdd_orchestrator.Prelude.Lists.{contains}
use softos_sdd_orchestrator.Table.Laws.{IsUnique}
use softos_sdd_orchestrator.Table.Count.{total}
use softos_sdd_orchestrator.Scheduler.Plan.{Job, slice_of}
use softos_sdd_orchestrator.Scheduler.State.{SchedulerConfig, Sched}
use softos_sdd_orchestrator.Scheduler.Loop.{
  is_pending, is_running, is_passed, is_lost, is_failed, is_blocked, failed_parent, find_job,
  waiting_parent,
}
use softos_sdd_orchestrator.Scheduler.Counts.{occurrences}

-- The job of this name runs.
abbrev pub runs : String → List Job → Bool
runs name jobs = elim (find_job name jobs) [ none ↦ false | some job ↦ is_running job ]

-- What a job adds to the count of running jobs of a repo, of a hot area, and of jobs that ended.
abbrev pub repo_load : String → Job → ℕ
repo_load repo job = if is_running job then (if job.repo == repo then 1 else 0) else 0

abbrev pub area_load : String → Job → ℕ
area_load area job = if is_running job then occurrences area job.hot_areas else 0

abbrev pub end_load : Job → ℕ
end_load job = if is_passed job || is_lost job then 1 else 0

abbrev pub lost_load : Job → ℕ
lost_load job = if is_lost job then 1 else 0

-- What a future adds to the count of the futures of a job.
abbrev pub future_load : String → String × ℕ → ℕ
future_load name future = if future.0 == name then 1 else 0

-- What holds of each job, with the others of its run.
pub record JobFits (config : SchedulerConfig) (jobs : List Job) (job : Job) : Type 0 where
  pub once : (area : String) → occurrences area job.hot_areas ≤ 1
  pub attempts : job.attempt ≤ config.max_retries_execution + 1
  pub may_retry : is_pending job ≡ true → job.attempt ≤ config.max_retries_execution
  pub parents_passed :
      (is_running job || is_passed job) ≡ true → waiting_parent jobs job.depends_on ≡ none
  pub out_of_attempts : is_failed job ≡ true → job.attempt ≡ config.max_retries_execution + 1
  pub lost_parent : is_blocked job ≡ true → failed_parent jobs job.depends_on ≡ none → ⊥

-- No two jobs of a pair run together.
abbrev pub AreApart : List Job → List (String × String) → Type 0
AreApart jobs [] = Unit
AreApart jobs ((left, right) ∷ pairs) =
    ((runs left jobs && runs right jobs) ≡ false) × AreApart jobs pairs

-- No job is paired with itself.
abbrev pub AreDistinct : List (String × String) → Type 0
AreDistinct [] = Unit
AreDistinct ((left, right) ∷ pairs) = ((left == right) ≡ false) × AreDistinct pairs

-- The state is sound; `rest` holds the futures that were there when the round began and that
-- the round has not looked at yet.
pub record IsSound (config : SchedulerConfig) (pairs : List (String × String))
    (rest : List (String × ℕ)) {Locks : Type 0} (s : Sched Locks) : Type 0 where
  pub unique : IsUnique slice_of s.jobs
  pub listed : (name : String) → contains name s.running_jobs ≡ runs name s.jobs
  pub repo_counted : (repo : String) → s.running_by_repo repo ≡ total (repo_load repo) s.jobs
  pub repo_within : (repo : String) → s.running_by_repo repo ≤ config.per_repo_capacity
  pub area_counted : (area : String) → s.running_by_hot_area area ≡ total (area_load area) s.jobs
  pub area_within : (area : String) → s.running_by_hot_area area ≤ config.per_hot_area_capacity
  pub fits :
      (name : String) (job : Job) → find_job name s.jobs ≡ some job → JobFits config s.jobs job
  pub apart : AreApart s.jobs pairs
  pub one_future :
      (name : String)
      → total (future_load name) rest + total (future_load name) s.futures
        ≡ (if runs name s.jobs then 1 else 0)
  pub ended : s.completed ≡ total end_load s.jobs
  pub flagged : s.any_failed ≡ ltb 0 (total lost_load s.jobs)

-- An update of a job that keeps what the plan says of it.
pub record KeepsPlan (f : Job → Job) : Type 0 where
  pub slice_kept : (job : Job) → (f job).slice ≡ job.slice
  pub repo_kept : (job : Job) → (f job).repo ≡ job.repo
  pub areas_kept : (job : Job) → (f job).hot_areas ≡ job.hot_areas
  pub parents_kept : (job : Job) → (f job).depends_on ≡ job.depends_on
