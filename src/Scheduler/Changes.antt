-- ===== src/Scheduler/Changes.antt =====
-- What a change of one job does to the predicates of the invariant.
use softos_sdd_orchestrator.Prelude.{
  String, Bool, true, false, ◌≡◌, refl, none, some, List, [], ◌∷◌, arith, ◌==◌, eq_iff, ◌&&◌,
  if◌then◌else◌, Bool-cases, Option-cases, inl, inr, subst, ap,
}
use softos_sdd_orchestrator.Prelude.Lists.{contains}
use softos_sdd_orchestrator.Table.{update}
use softos_sdd_orchestrator.Table.Laws.{select-update}
use softos_sdd_orchestrator.Scheduler.Plan.{Job, slice_of}
use softos_sdd_orchestrator.Scheduler.State.{SchedulerConfig}
use softos_sdd_orchestrator.Scheduler.Loop.{
  is_running, is_passed, is_lost, failed_parent, find_job, waiting_parent, overlapping,
}
use softos_sdd_orchestrator.Scheduler.Sound.{runs, JobFits, AreApart, AreDistinct, KeepsPlan}

abbrev plan_of : Job → String × String × List String × List String
plan_of job = (job.slice, job.repo, job.hot_areas, job.depends_on)

pub keeps_plan : {f : Job → Job} → ((job : Job) → plan_of (f job) ≡ plan_of job) → KeepsPlan f
keeps_plan same = record {
  slice_kept = λ job. ap (λ p. p.0) (same job);
  repo_kept = λ job. ap (λ p. p.1) (same job);
  areas_kept = λ job. ap (λ p. p.2) (same job);
  parents_kept = λ job. ap (λ p. p.3) (same job);
}

-- The job of this name failed or is blocked.
unfoldable lost_in : String → List Job → Bool
lost_in name jobs = elim (find_job name jobs) [ none ↦ false | some job ↦ is_lost job ]

contrapose : (a b : Bool) → (a ≡ true → b ≡ true) → b ≡ false → a ≡ false
contrapose a b h e = ground arith

pub none-some : {x : String} → some x ≡ none → ⊥
none-some e = ground arith

failed_parent-cons :
    (parent : String) (parents : List String) (jobs : List Job)
    → failed_parent jobs (parent ∷ parents) ≡ none
    → (lost_in parent jobs ≡ false) × (failed_parent jobs parents ≡ none)
unfolding failed_parent lost_in
failed_parent-cons parent parents jobs h = elim (Option-cases (find_job parent jobs)) [
  | inl absent ↦ (rw (absent, lost_in) refl, rw (absent, failed_parent) at h)
  | inr (job, found) ↦ elim (Bool-cases (is_lost job)) [
    | inl lost ↦ absurd (none-some (rw lost at (rw (found, failed_parent) at h)))
    | inr fine ↦ (rw (found, lost_in) fine, rw fine at (rw (found, failed_parent) at h))
  ]
]

failed_parent-none :
    (parent : String) (parents : List String) (jobs : List Job)
    → lost_in parent jobs ≡ false
    → failed_parent jobs parents ≡ none
    → failed_parent jobs (parent ∷ parents) ≡ none
unfolding failed_parent lost_in
failed_parent-none parent parents jobs fine h = elim (Option-cases (find_job parent jobs)) [
  | inl absent ↦ rw (absent, failed_parent) h
  | inr (job, found) ↦ rw (found, failed_parent) (rw (rw (found, lost_in) at fine) h)
]

module _ (k : String) (job : Job) (f : Job → Job) (jobs : List Job)
    (found : find_job k jobs ≡ some job) (plan : KeepsPlan f) where
  pub find-set :
      (n : String)
      → find_job n (update slice_of k f jobs) ≡ (if k == n then some (f job) else find_job n jobs)
  find-set n = ground (arith, select-update slice_of k n f jobs plan.slice_kept, eq_iff k n, found)

  pub runs-set :
      (n : String)
      → runs n (update slice_of k f jobs) ≡ (if k == n then is_running (f job) else runs n jobs)
  runs-set n = ground (arith, find-set n)

  pub waiting-set :
      (parents : List String)
      → (is_passed job ≡ true → is_passed (f job) ≡ true)
      → waiting_parent jobs parents ≡ none
      → waiting_parent (update slice_of k f jobs) parents ≡ none
  unfolding waiting_parent
  waiting-set [] final h = refl
  waiting-set (parent ∷ parents) final h =
      ground (arith, find-set parent, waiting-set parents final, eq_iff k parent, found)

  lost_in-set :
      (n : String)
      → (is_lost job ≡ true → is_lost (f job) ≡ true)
      → lost_in n (update slice_of k f jobs) ≡ false
      → lost_in n jobs ≡ false
  unfolding lost_in
  lost_in-set n lasting h = elim (Bool-cases (k == n)) [
    | inl same ↦
        let now : is_lost (f job) ≡ false = ground (arith, find-set n) in
        let before : is_lost job ≡ false = contrapose (is_lost job) (is_lost (f job)) lasting now in
        ground (arith, eq_iff k n, found)
    | inr other ↦ ground (arith, find-set n)
  ]

  lost-set :
      (parents : List String)
      → (is_lost job ≡ true → is_lost (f job) ≡ true)
      → failed_parent (update slice_of k f jobs) parents ≡ none
      → failed_parent jobs parents ≡ none
  unfolding failed_parent
  lost-set [] lasting h = refl
  lost-set (parent ∷ parents) lasting h =
      let (fine, others) = failed_parent-cons parent parents (update slice_of k f jobs) h in
      failed_parent-none parent parents jobs (lost_in-set parent lasting fine)
        (lost-set parents lasting others)

  kept-JobFits :
      (config : SchedulerConfig) (j : Job)
      → (is_passed job ≡ true → is_passed (f job) ≡ true)
      → (is_lost job ≡ true → is_lost (f job) ≡ true)
      → JobFits config jobs j
      → JobFits config (update slice_of k f jobs) j
  kept-JobFits config j final lasting h = record {
    once = h.once;
    attempts = h.attempts;
    may_retry = h.may_retry;
    parents_passed = λ p. waiting-set j.depends_on final (h.parents_passed p);
    out_of_attempts = h.out_of_attempts;
    lost_parent = λ p e. h.lost_parent p (lost-set j.depends_on lasting e);
  }

  pub set-JobFits :
      (config : SchedulerConfig)
      → (is_passed job ≡ true → is_passed (f job) ≡ true)
      → (is_lost job ≡ true → is_lost (f job) ≡ true)
      → JobFits config jobs (f job)
      → ((n : String) (j : Job) → find_job n jobs ≡ some j → JobFits config jobs j)
      → (n : String) (j : Job) → find_job n (update slice_of k f jobs) ≡ some j
      → JobFits config (update slice_of k f jobs) j
  set-JobFits config final lasting new old n j e = elim (Bool-cases (k == n)) [
    | inl same ↦
        let chosen : f job ≡ j = ground (arith, find-set n) in
        subst (JobFits config (update slice_of k f jobs)) chosen
          (kept-JobFits config (f job) final lasting new)
    | inr other ↦ kept-JobFits config j final lasting (old n j (ground (arith, find-set n)))
  ]

  -- A job that does not run now disturbs no pair.
  pub set-AreApart :
      (pairs : List (String × String))
      → (is_running (f job) ≡ true → is_running job ≡ true)
      → AreApart jobs pairs
      → AreApart (update slice_of k f jobs) pairs
  set-AreApart [] off h = tt
  set-AreApart ((left, right) ∷ pairs) off h = (
    ground (arith, runs-set left, runs-set right, eq_iff k left, eq_iff k right, found),
    set-AreApart pairs off h.1,
  )

  -- A job that starts is kept from the running ones that it overlaps.
  pub started-AreApart :
      (pairs : List (String × String)) (running_jobs : List String)
      → ((n : String) → contains n running_jobs ≡ runs n jobs)
      → is_running job ≡ false
      → AreDistinct pairs
      → overlapping k running_jobs pairs ≡ none
      → AreApart jobs pairs
      → AreApart (update slice_of k f jobs) pairs
  unfolding overlapping
  started-AreApart [] running_jobs listed idle distinct free h = tt
  started-AreApart ((left, right) ∷ pairs) running_jobs listed idle distinct free h =
      let apart : (runs left jobs && runs right jobs) ≡ false = h.0 in
      let unlike : (left == right) ≡ false = distinct.0 in
      (
        ground (
          arith,
          runs-set left,
          runs-set right,
          eq_iff k left,
          eq_iff k right,
          eq_iff left right,
          found,
          listed left,
          listed right,
        ),
        started-AreApart pairs running_jobs listed idle distinct.1 (ground arith) h.1,
      )
