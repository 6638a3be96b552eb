-- ===== src/Scheduler/Minimal.antt =====
-- Among pending jobs whose parents are neither lost nor running, a ranked plan has one that waits for
-- no parent.
use softos_sdd_orchestrator.Prelude.{
  ℕ, zero, suc, ◌+◌, ◌<◌, String, true, false, ◌≡◌, refl, sym, ◌∙◌, ap, subst, none, some, List, [],
  ◌∷◌, map, arith, ◌==◌, eq_iff, Bool-cases, Option-cases, inl, inr,
}
use mathlib.Core.Option.{none-ne-some, some-injective}
use softos_sdd_orchestrator.Prelude.Lists.{length, contains}
use softos_sdd_orchestrator.Prelude.Order.{true-false, contains-sort}
use softos_sdd_orchestrator.Prelude.Text.{text_leb}
use softos_sdd_orchestrator.Table.{select}
use softos_sdd_orchestrator.Table.Laws.{IsUnique}
use softos_sdd_orchestrator.Table.Count.{total}
use softos_sdd_orchestrator.Scheduler.Plan.{Job, slice_of, sorted_names}
use softos_sdd_orchestrator.Scheduler.State.{Sched}
use softos_sdd_orchestrator.Scheduler.Loop.{
  is_pending, is_running, is_passed, is_lost, find_job, failed_parent, waiting_parent,
}
use softos_sdd_orchestrator.Scheduler.Sound.{runs, end_load}
use softos_sdd_orchestrator.Scheduler.SamePlan.{parents_of, IsRanked}
use softos_sdd_orchestrator.Scheduler.Ready.{IsStartable}

waiting_parent-some :
    (jobs : List Job) (parents : List String) (p : String)
    → waiting_parent jobs parents ≡ some p
    → (contains p parents ≡ true) × ((q : Job) × (find_job p jobs ≡ some q) × (is_passed q ≡ false))
unfolding waiting_parent
waiting_parent-some jobs [] p h = absurd (none-ne-some p h)
waiting_parent-some jobs (r ∷ parents) p h = elim (Option-cases (find_job r jobs)) [
  | inl absent ↦
      let (held, q) = waiting_parent-some jobs parents p (rw (absent, waiting_parent) at h) in
      (ground (arith, held), q)
  | inr (job, found) ↦ elim (Bool-cases (is_passed job)) [
    | inl past ↦
        let (held, q) =
          waiting_parent-some jobs parents p (rw past at (rw (found, waiting_parent) at h)) in
        (ground (arith, held), q)
    | inr waits ↦
        let e : r ≡ p = some-injective r p (rw waits at (rw (found, waiting_parent) at h)) in
        (
          ground (arith, (eq_iff r p).1 e),
          (job, subst (λ n. find_job n jobs ≡ some job) e found, waits),
        )
  ]
]

failed_parent-none :
    (jobs : List Job) (parents : List String) (p : String) (q : Job)
    → failed_parent jobs parents ≡ none
    → contains p parents ≡ true
    → find_job p jobs ≡ some q
    → is_lost q ≡ false
unfolding failed_parent
failed_parent-none jobs [] p q h held found = absurd (true-false (sym held))
failed_parent-none jobs (r ∷ parents) p q h held found = elim (Bool-cases (r == p)) [
  | inl same ↦ elim (Bool-cases (is_lost q)) [
    | inr fine ↦ fine
    | inl lost ↦
        let here : find_job r jobs ≡ some q =
          subst (λ n. find_job n jobs ≡ some q) (sym ((eq_iff r p).0 same)) found in
        absurd (none-ne-some r (sym (rw lost at (rw (here, failed_parent) at h))))
  ]
  | inr other ↦ elim (Option-cases (find_job r jobs)) [
    | inl absent ↦
        failed_parent-none jobs parents p q (rw (absent, failed_parent) at h) (rw other at held)
          found
    | inr (job, there) ↦ elim (Bool-cases (is_lost job)) [
      | inl lost ↦ absurd (none-ne-some r (sym (rw lost at (rw (there, failed_parent) at h))))
      | inr fine ↦
          failed_parent-none jobs parents p q (rw fine at (rw (there, failed_parent) at h))
            (rw other at held) found
    ]
  ]
]

must_wait :
    (job : Job)
    → is_passed job ≡ false
    → is_lost job ≡ false
    → is_running job ≡ false
    → is_pending job ≡ true
must_wait job not_passed not_lost off = ground (arith, not_passed, not_lost, off)

module _ {Locks : Type 0} (s : Sched Locks) (rank : String → ℕ) (ranked : IsRanked rank s.jobs)
    (quiet : (name : String) → runs name s.jobs ≡ false)
    (unlost : (name : String) (job : Job)
      → find_job name s.jobs ≡ some job
      → is_pending job ≡ true
      → failed_parent s.jobs job.depends_on ≡ none) where
  off_run : (name : String) (job : Job) → find_job name s.jobs ≡ some job → is_running job ≡ false
  off_run name job found = ground (arith, quiet name, found)

  below-IsStartable :
      (bound : ℕ) (name : String) (job : Job)
      → rank name < bound
      → find_job name s.jobs ≡ some job
      → is_pending job ≡ true
      → (n : String) × IsStartable s n
  below-IsStartable zero name job below found idle = absurd (omega (arith, below))
  below-IsStartable (suc bound) name job below found idle =
      elim (Option-cases (waiting_parent s.jobs job.depends_on)) [
        | inl free ↦ (name, record { job = job; found = found; idle = idle; free = free })
        | inr (p, waits) ↦
            let (held, (q, p_found, not_passed)) =
              waiting_parent-some s.jobs job.depends_on p waits in
            let lower : rank p < rank name =
              ranked name p job.depends_on q.depends_on (ap parents_of found) held
                (ap parents_of p_found) in
            below-IsStartable bound p q (omega (arith, lower, below)) p_found (
              must_wait q not_passed
                (failed_parent-none s.jobs job.depends_on p q (unlost name job found idle) held
                  p_found)
                (off_run p q p_found))
      ]

  pub startable :
      (name : String) (job : Job)
      → find_job name s.jobs ≡ some job
      → is_pending job ≡ true
      → (n : String) × IsStartable s n
  startable name job found idle =
      below-IsStartable (rank name + 1) name job (omega arith) found idle

-- When not all jobs have ended and none runs, one is pending.
pub some_pending :
    (jobs : List Job)
    → IsUnique slice_of jobs
    → ((name : String) → runs name jobs ≡ false)
    → total end_load jobs < length jobs
    → (name : String) × ((job : Job) × (find_job name jobs ≡ some job) × (is_pending job ≡ true))
unfolding total select
some_pending [] unique quiet open_jobs = absurd (omega (arith, open_jobs))
some_pending (job ∷ jobs) (fresh, unique) quiet open_jobs = elim (Bool-cases (is_pending job)) [
  | inl idle ↦ (job.slice, (job, rw ((eq_iff job.slice job.slice).1 refl) refl, idle))
  | inr busy ↦
      let off : is_running job ≡ false =
        ground (arith, quiet job.slice, eq_iff job.slice job.slice) in
      let over : end_load job ≡ 1 = ground (arith, busy, off) in
      let others : (name : String) → runs name jobs ≡ false = λ (name : String).
        elim (Bool-cases (job.slice == name)) [
          | inl same ↦
              rw
                (
                  subst (λ n. select slice_of n jobs ≡ none) ((eq_iff job.slice name).0 same) fresh,
                  runs,
                )
                refl
          | inr other ↦ ground (arith, quiet name, other)
        ] in
      let (name, (found_job, found, idle)) =
        some_pending jobs unique others (omega (arith, over, open_jobs)) in
      (
        name,
        (
          found_job,
          elim (Bool-cases (job.slice == name)) [
            | inr other ↦ rw other found
            | inl same ↦ absurd (
                none-ne-some found_job (
                  sym (
                    subst (λ n. select slice_of n jobs ≡ none) ((eq_iff job.slice name).0 same)
                      fresh)
                  ∙ found))
          ],
          idle,
        ),
      )
]

contains-map :
    (name : String) (job : Job) (jobs : List Job)
    → find_job name jobs ≡ some job
    → contains name (map slice_of jobs) ≡ true
unfolding select
contains-map name job [] found = absurd (none-ne-some job found)
contains-map name job (j ∷ jobs) found = elim (Bool-cases (j.slice == name)) [
  | inl same ↦ rw same refl
  | inr other ↦ rw other (contains-map name job jobs (rw other at found))
]

pub contains-sorted_names :
    (name : String) (job : Job) (jobs : List Job)
    → find_job name jobs ≡ some job
    → contains name (sorted_names jobs) ≡ true
unfolding sorted_names
contains-sorted_names name job jobs found =
    contains-sort text_leb name (map slice_of jobs) ∙ contains-map name job jobs found
