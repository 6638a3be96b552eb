-- ===== src/Scheduler/LockLaws.antt =====
-- What the scheduler asks of its locks, and when each running job holds its semantic locks.
use softos_sdd_orchestrator.Prelude.{
  ℕ, String, true, false, ◌≡◌, sym, Option, none, some, List, arith, ◌==◌, eq_iff, Bool-cases, inl,
  inr, subst,
}
use softos_sdd_orchestrator.Prelude.Lists.{contains}
use softos_sdd_orchestrator.Table.{update}
use softos_sdd_orchestrator.Scheduler.Plan.{Job, slice_of}
use softos_sdd_orchestrator.Scheduler.State.{LockTable}
use softos_sdd_orchestrator.Scheduler.Loop.{is_running, find_job}
use softos_sdd_orchestrator.Scheduler.Sound.{KeepsPlan, runs}
use softos_sdd_orchestrator.Scheduler.Changes.{find-set}

-- A table of locks that tells the owner of each lock, and takes none from a running job.
pub record LockLaws (L : LockTable) : Type 0 where
  pub owner : String → L.Locks → Option String
  pub acquire_kept :
      (now : ℕ) (running : List String) (job : Job) (locks : L.Locks) (lock holder : String)
      → owner lock locks ≡ some holder
      → contains holder running ≡ true
      → contains job.slice running ≡ false
      → owner lock ((L.acquire now running job locks).1) ≡ some holder
  pub acquire_taken :
      (now : ℕ) (running : List String) (job : Job) (locks : L.Locks) (lock : String)
      → (L.acquire now running job locks).0 ≡ none
      → contains lock job.semantic_locks ≡ true
      → owner lock ((L.acquire now running job locks).1) ≡ some job.slice
  pub release_kept :
      (job : Job) (locks : L.Locks) (lock holder : String)
      → owner lock locks ≡ some holder
      → (job.slice == holder) ≡ false
      → owner lock (L.release job locks) ≡ some holder
  pub heartbeat_kept :
      (now : ℕ) (running : List String) (locks : L.Locks) (lock holder : String)
      → owner lock locks ≡ some holder
      → owner lock (L.heartbeat now running locks) ≡ some holder

module _ (L : LockTable) (laws : LockLaws L) where
  open laws use {owner}

  -- Each running job owns each of its semantic locks.
  abbrev pub IsHeld : List Job → L.Locks → Type 0
  IsHeld jobs locks =
      (n : String) (job : Job) (lock : String)
      → find_job n jobs ≡ some job
      → is_running job ≡ true
      → contains lock job.semantic_locks ≡ true
      → owner lock locks ≡ some n

  pub set-IsHeld :
      (k : String) (job : Job) (f : Job → Job) (jobs : List Job) (locks after : L.Locks)
      → find_job k jobs ≡ some job
      → KeepsPlan f
      → IsHeld jobs locks
      → ((n lock : String)
          → (k == n) ≡ false
          → runs n jobs ≡ true
          → owner lock locks ≡ some n
          → owner lock after ≡ some n)
      → ((lock : String)
          → is_running (f job) ≡ true
          → contains lock (f job).semantic_locks ≡ true
          → owner lock after ≡ some k)
      → IsHeld (update slice_of k f jobs) after
  set-IsHeld k job f jobs locks after found plan held others own n j lock e on l =
      elim (Bool-cases (k == n)) [
        | inl same ↦
            let chosen : f job ≡ j = ground (arith, find-set k job f jobs found plan n) in
            let named : k ≡ n = (eq_iff k n).0 same in
            subst (λ x. owner lock after ≡ some x) named
              (own lock (subst (λ x. is_running x ≡ true) (sym chosen) on)
                (subst (λ x. contains lock x.semantic_locks ≡ true) (sym chosen) l))
        | inr other ↦
            let old : find_job n jobs ≡ some j =
              ground (arith, find-set k job f jobs found plan n) in
            others n lock other (ground arith) (held n j lock old on l)
      ]
