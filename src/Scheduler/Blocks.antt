-- ===== src/Scheduler/Blocks.antt =====
-- What the loop over `_mark_dependency_blocked` does to the count of ended jobs.
use softos_sdd_orchestrator.Prelude.{
  ◌<◌, String, true, ◌≡◌, ◌⊎◌, refl, sym, ◌∙◌, ap, subst, none, some, List, [], ◌∷◌, arith, ◌==◌,
  eq_iff, Bool-cases, Option-cases, inl, inr,
}
use mathlib.Core.Option.{none-ne-some, some-injective}
use softos_sdd_orchestrator.Prelude.Lists.{contains}
use softos_sdd_orchestrator.Prelude.Order.{true-false}
use softos_sdd_orchestrator.Scheduler.Plan.{Job}
use softos_sdd_orchestrator.Scheduler.State.{SchedulerConfig, LockTable, Sched, set_job}
use softos_sdd_orchestrator.Scheduler.Loop.{
  is_pending, find_job, failed_parent, mark_blocked, block, block_all,
}

-- The job of this name, when it is pending, has no lost parent.
abbrev pub HasNoLost : String → List Job → Type 0
HasNoLost name jobs =
    (job : Job)
    → find_job name jobs ≡ some job
    → is_pending job ≡ true
    → failed_parent jobs job.depends_on ≡ none

module _ (L : LockTable) (config : SchedulerConfig) (pairs : List (String × String)) where
  open L use {Locks, acquire, release, heartbeat}

  mark_blocked-completed :
      (name parent : String) (s : Sched Locks)
      → s.completed < (mark_blocked L config pairs name parent s).completed
  unfolding mark_blocked set_job
  mark_blocked-completed name parent s = omega arith

  block-outcome :
      (name : String) (s : Sched Locks)
      → (s.completed < (block L config pairs name s).completed)
        ⊎ ((block L config pairs name s ≡ s) × HasNoLost name s.jobs)
  unfolding block
  block-outcome name s = elim (Option-cases (find_job name s.jobs)) [
    | inl absent ↦
        inr (
          rw (absent, block) refl,
          λ job found idle. absurd (none-ne-some job (sym absent ∙ found)),
        )
    | inr (job, found) ↦ elim (Bool-cases (is_pending job)) [
      | inr over ↦ inr (
        rw (found, block) (rw over refl),
        λ j there idle. absurd (
            true-false (
              sym idle
              ∙ ap (λ (i : Job). is_pending i) (some-injective j job (sym there ∙ found))
              ∙ over)),
      )
      | inl idle ↦ elim (Option-cases (failed_parent s.jobs job.depends_on)) [
        | inl fine ↦ inr (
          rw (found, block) (rw idle (rw fine refl)),
          λ j there pends.
              ap (λ (i : Job). failed_parent s.jobs i.depends_on)
                (some-injective j job (sym there ∙ found))
              ∙ fine,
        )
        | inr (parent, lost) ↦
            inl (rw (found, block) (rw idle (rw lost (mark_blocked-completed name parent s))))
      ]
    ]
  ]

  -- Either `completed` has grown, or nothing was changed and no listed job has a lost parent.
  pub block_all-outcome :
      (names : List String) (s : Sched Locks)
      → (s.completed < (block_all L config pairs names s).completed)
        ⊎ ((block_all L config pairs names s ≡ s)
            × ((name : String) → contains name names ≡ true → HasNoLost name s.jobs))
  unfolding block_all
  block_all-outcome [] s = inr (refl, λ name held. absurd (true-false (sym held)))
  block_all-outcome (name ∷ names) s =
      elim (block_all-outcome names (block L config pairs name s)) [
        | inl grew ↦ elim (block-outcome name s) [
          | inl more ↦ inl (omega (arith, grew, more))
          | inr (same, fine) ↦ inl (omega (arith, grew, ap (λ (t : Sched Locks). t.completed) same))
        ]
        | inr (kept, others) ↦ elim (block-outcome name s) [
          | inl more ↦ inl (omega (arith, more, ap (λ (t : Sched Locks). t.completed) kept))
          | inr (same, fine) ↦ inr (
            kept ∙ same,
            λ n held. elim (Bool-cases (name == n)) [
              | inl here ↦ subst (λ m. HasNoLost m s.jobs) ((eq_iff name n).0 here) fine
              | inr there ↦
                  subst (λ (t : Sched Locks). HasNoLost n t.jobs) same (others n (rw there at held))
            ],
          )
        ]
      ]
