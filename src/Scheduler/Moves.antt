-- ===== src/Scheduler/Moves.antt =====
-- The invariant when one job of the table changes: a job that is idle, starts, or is done.
use softos_sdd_orchestrator.Prelude.{
  ℕ, ◌+◌, ◌<◌, String, true, false, ◌≡◌, sym, ap, none, some, List, ◌∷◌, arith, eq_iff, ◌||◌, subst,
}
use softos_sdd_orchestrator.Table.{insert, update}
use softos_sdd_orchestrator.Table.Laws.{IsUnique, update-IsUnique}
use softos_sdd_orchestrator.Table.Count.{total, total-update, total-insert}
use softos_sdd_orchestrator.Scheduler.Plan.{Job, slice_of}
use softos_sdd_orchestrator.Scheduler.State.{
  SchedulerConfig, Sched, increase, decrease, increase_all, decrease_all, discard,
}
use softos_sdd_orchestrator.Scheduler.Loop.{
  is_pending, is_running, is_passed, is_lost, find_job, full_area, overlapping,
}
use softos_sdd_orchestrator.Scheduler.Counts.{
  increase_all_lem, decrease_all_lem, contains-discard, full_area-none,
}
use softos_sdd_orchestrator.Scheduler.Sound.{
  repo_load, area_load, end_load, lost_load, future_load, JobFits, AreDistinct, AreApart, IsSound,
  KeepsPlan,
}
use softos_sdd_orchestrator.Scheduler.Changes.{
  runs-set, set-JobFits, set-AreApart, started-AreApart,
}

module _ (config : SchedulerConfig) (pairs : List (String × String)) (rest : List (String × ℕ))
    {Locks : Type 0} (s : Sched Locks) (sound : IsSound config pairs rest s) (k : String)
    (job : Job) (found : find_job k s.jobs ≡ some job) (f : Job → Job) (plan : KeepsPlan f)
    (final : is_passed job ≡ true → is_passed (f job) ≡ true)
    (lasting : is_lost job ≡ true → is_lost (f job) ≡ true)
    (new : JobFits config s.jobs (f job)) where
  next-IsUnique : (jobs : List Job) → jobs ≡ update slice_of k f s.jobs → IsUnique slice_of jobs
  next-IsUnique jobs e =
      subst (IsUnique slice_of) (sym e)
        (update-IsUnique slice_of k f s.jobs plan.slice_kept sound.unique)

  next-JobFits :
      (jobs : List Job)
      → jobs ≡ update slice_of k f s.jobs
      → (n : String) (j : Job) → find_job n jobs ≡ some j
      → JobFits config jobs j
  next-JobFits jobs e =
      subst (λ js. (n : String) (j : Job) → find_job n js ≡ some j → JobFits config js j) (sym e)
        (set-JobFits k job f s.jobs found plan config final lasting new sound.fits)

  -- A job that does not run is changed.
  pub idle-IsSound :
      (s' : Sched Locks)
      → s'.jobs ≡ update slice_of k f s.jobs
      → s'.running_jobs ≡ s.running_jobs
      → s'.running_by_repo ≡ s.running_by_repo
      → s'.running_by_hot_area ≡ s.running_by_hot_area
      → s'.futures ≡ s.futures
      → s'.completed + end_load job ≡ s.completed + end_load (f job)
      → s'.any_failed ≡ (s.any_failed || is_lost (f job))
      → is_pending job ≡ true
      → is_running (f job) ≡ false
      → IsSound config pairs rest s'
  idle-IsSound s' jobs names repos areas futures count seen idle idle' = record {
    unique = next-IsUnique s'.jobs jobs;
    listed = λ n.
        ground (arith, sound.listed n, runs-set k job f s.jobs found plan n, eq_iff k n, found);
    repo_counted = λ n. ground (
      arith,
      sound.repo_counted n,
      total-update slice_of (repo_load n) k f job s.jobs sound.unique found,
    );
    repo_within = λ n. ground (arith, sound.repo_within n);
    area_counted = λ n. ground (
      arith,
      sound.area_counted n,
      total-update slice_of (area_load n) k f job s.jobs sound.unique found,
    );
    area_within = λ n. ground (arith, sound.area_within n);
    fits = next-JobFits s'.jobs jobs;
    apart =
        subst (λ js. AreApart js pairs) (sym jobs)
          (set-AreApart k job f s.jobs found plan pairs (ground arith) sound.apart);
    one_future = λ n.
        ground (arith, sound.one_future n, runs-set k job f s.jobs found plan n, eq_iff k n, found);
    ended =
        ground
          (arith, sound.ended, total-update slice_of end_load k f job s.jobs sound.unique found);
    flagged =
        ground
          (arith, sound.flagged, total-update slice_of lost_load k f job s.jobs sound.unique found);
  }

  -- A pending job starts.
  pub started-IsSound :
      (s' : Sched Locks) (worker : ℕ)
      → s'.jobs ≡ update slice_of k f s.jobs
      → s'.running_jobs ≡ k ∷ s.running_jobs
      → s'.running_by_repo ≡ increase job.repo s.running_by_repo
      → s'.running_by_hot_area ≡ increase_all job.hot_areas s.running_by_hot_area
      → s'.futures ≡ insert (k, worker) s.futures
      → s'.completed ≡ s.completed
      → s'.any_failed ≡ s.any_failed
      → is_pending job ≡ true
      → is_running (f job) ≡ true
      → s.running_by_repo job.repo < config.per_repo_capacity
      → full_area config.per_hot_area_capacity s.running_by_hot_area job.hot_areas ≡ none
      → overlapping k s.running_jobs pairs ≡ none
      → AreDistinct pairs
      → IsSound config pairs rest s'
  started-IsSound s' worker jobs names repos areas futures count seen idle on room rooms free
        distinct =
      let repo_counts =
        λ (n : String). total-update slice_of (repo_load n) k f job s.jobs sound.unique found in
      let area_counts =
        λ (n : String). total-update slice_of (area_load n) k f job s.jobs sound.unique found in
      let kept : JobFits config s.jobs job = sound.fits k job found in
      record {
        unique = next-IsUnique s'.jobs jobs;
        listed =
            λ n. ground (arith, sound.listed n, runs-set k job f s.jobs found plan n, eq_iff k n);
        repo_counted = λ n.
            ground
              (arith, sound.repo_counted n, repo_counts n, plan.repo_kept job, eq_iff job.repo n);
        repo_within = λ n. ground (arith, sound.repo_within n, eq_iff job.repo n);
        area_counted = λ n. ground (
          arith,
          sound.area_counted n,
          area_counts n,
          plan.areas_kept job,
          increase_all_lem job.hot_areas s.running_by_hot_area n,
        );
        area_within = λ n. ground (
          arith,
          sound.area_within n,
          kept.once n,
          increase_all_lem job.hot_areas s.running_by_hot_area n,
          full_area-none config.per_hot_area_capacity s.running_by_hot_area job.hot_areas n rooms,
        );
        fits = next-JobFits s'.jobs jobs;
        apart =
            subst (λ js. AreApart js pairs) (sym jobs)
              (started-AreApart k job f s.jobs found plan pairs s.running_jobs sound.listed
                (ground arith) distinct free sound.apart);
        one_future = λ n. ground (
          arith,
          sound.one_future n,
          runs-set k job f s.jobs found plan n,
          eq_iff k n,
          found,
          total-insert (future_load n) (k, worker) s.futures,
        );
        ended =
            ground (
              arith,
              sound.ended,
              total-update slice_of end_load k f job s.jobs sound.unique found,
            );
        flagged = ground (
          arith,
          sound.flagged,
          total-update slice_of lost_load k f job s.jobs sound.unique found,
        );
      }

  -- A running job is done, and its future is taken off the list.
  pub done-IsSound :
      (s' : Sched Locks) (worker : ℕ) (others : List (String × ℕ))
      → rest ≡ (k, worker) ∷ others
      → s'.jobs ≡ update slice_of k f s.jobs
      → s'.running_jobs ≡ discard k s.running_jobs
      → s'.running_by_repo ≡ decrease job.repo s.running_by_repo
      → s'.running_by_hot_area ≡ decrease_all job.hot_areas s.running_by_hot_area
      → s'.futures ≡ s.futures
      → s'.completed ≡ s.completed + end_load (f job)
      → s'.any_failed ≡ (s.any_failed || is_lost (f job))
      → is_running job ≡ true
      → is_running (f job) ≡ false
      → IsSound config pairs others s'
  unfolding total
  done-IsSound s' worker others one jobs names repos areas futures count seen on idle =
      let repo_counts =
        λ (n : String). total-update slice_of (repo_load n) k f job s.jobs sound.unique found in
      let area_counts =
        λ (n : String). total-update slice_of (area_load n) k f job s.jobs sound.unique found in
      record {
        unique = next-IsUnique s'.jobs jobs;
        listed = λ n. ground (
          arith,
          sound.listed n,
          runs-set k job f s.jobs found plan n,
          eq_iff k n,
          contains-discard k n s.running_jobs,
        );
        repo_counted = λ n. ground (arith, sound.repo_counted n, repo_counts n, eq_iff job.repo n);
        repo_within = λ n. ground (arith, sound.repo_within n, eq_iff job.repo n);
        area_counted = λ n. ground (
          arith,
          sound.area_counted n,
          area_counts n,
          decrease_all_lem job.hot_areas s.running_by_hot_area n,
        );
        area_within = λ n.
            ground
              (arith, sound.area_within n, decrease_all_lem job.hot_areas s.running_by_hot_area n);
        fits = next-JobFits s'.jobs jobs;
        apart =
            subst (λ js. AreApart js pairs) (sym jobs)
              (set-AreApart k job f s.jobs found plan pairs (ground arith) sound.apart);
        one_future = λ n. ground (
          arith,
          sound.one_future n,
          runs-set k job f s.jobs found plan n,
          eq_iff k n,
          found,
          ap (total (future_load n)) one,
        );
        ended =
            ground (
              arith,
              sound.ended,
              total-update slice_of end_load k f job s.jobs sound.unique found,
            );
        flagged = ground (
          arith,
          sound.flagged,
          total-update slice_of lost_load k f job s.jobs sound.unique found,
        );
      }
