-- ===== src/Scheduler/Pairs.antt =====
-- The names in the pairs of the overlap graph.
use softos_sdd_orchestrator.Prelude.{
  ◌≤◌, String, false, ◌≡◌, refl, none, some, List, [], ◌∷◌, ◌++◌, map, arith, ◌==◌, eq_iff,
  Bool-cases, inl, inr, Option-cases,
}
use softos_sdd_orchestrator.Table.{select}
use softos_sdd_orchestrator.Table.Laws.{IsUnique}
use softos_sdd_orchestrator.Scheduler.Plan.{
  Job, slice_of, sorted_names, pairs_of, overlap_pairs, has_critical_overlap,
}
use softos_sdd_orchestrator.Scheduler.Counts.{occurrences}
use softos_sdd_orchestrator.Scheduler.Fresh.{occurrences-sort}
use softos_sdd_orchestrator.Scheduler.Sound.{AreDistinct}

distinct-append :
    (xs ys : List (String × String)) → AreDistinct xs → AreDistinct ys → AreDistinct (xs ++ ys)
distinct-append [] ys h k = k
distinct-append ((left, right) ∷ xs) ys h k = (h.0, distinct-append xs ys h.1 k)

pairs_of-AreDistinct :
    (jobs : List Job) (left : String) (names : List String)
    → occurrences left names ≡ 0
    → AreDistinct (pairs_of jobs left names)
unfolding occurrences pairs_of
pairs_of-AreDistinct jobs left [] h = tt
pairs_of-AreDistinct jobs left (right ∷ names) h =
    let rest = pairs_of-AreDistinct jobs left names (ground arith) in
    let unlike : (left == right) ≡ false = ground (arith, eq_iff left right, eq_iff right left) in
    elim (Option-cases (select slice_of left jobs)) [
      | inl absent ↦ rw (absent, pairs_of) rest
      | inr (a, found) ↦ elim (Option-cases (select slice_of right jobs)) [
        | inl absent ↦ rw (found, pairs_of) (rw absent rest)
        | inr (b, other) ↦ elim (Bool-cases (has_critical_overlap a b)) [
          | inl over ↦ rw (found, pairs_of) (rw other (rw over (unlike, rest)))
          | inr apart ↦ rw (found, pairs_of) (rw other (rw apart rest))
        ]
      ]
    ]

overlap_pairs-names :
    (jobs : List Job) (names : List String)
    → ((k : String) → occurrences k names ≤ 1)
    → AreDistinct (overlap_pairs jobs names)
unfolding overlap_pairs occurrences
overlap_pairs-names jobs [] h = tt
overlap_pairs-names jobs (left ∷ names) h =
    distinct-append (pairs_of jobs left names) (overlap_pairs jobs names)
      (pairs_of-AreDistinct jobs left names (ground (arith, h left, eq_iff left left)))
      (overlap_pairs-names jobs names (λ k. ground (arith, h k)))

-- A name stands in a table as often as one of its rows has it.
pub occurrences-map :
    (k : String) (jobs : List Job)
    → IsUnique slice_of jobs
    → occurrences k (map slice_of jobs) ≡ elim (select slice_of k jobs) [ none ↦ 0 | some _ ↦ 1 ]
unfolding occurrences select
occurrences-map k [] u = refl
occurrences-map k (job ∷ jobs) u = ground (arith, occurrences-map k jobs u.1, eq_iff job.slice k)

pub overlap_pairs-AreDistinct :
    (jobs : List Job)
    → IsUnique slice_of jobs
    → AreDistinct (overlap_pairs jobs (sorted_names jobs))
unfolding sorted_names
overlap_pairs-AreDistinct jobs u =
    overlap_pairs-names jobs (sorted_names jobs)
      (λ k. ground (arith, occurrences-sort k (map slice_of jobs), occurrences-map k jobs u))
