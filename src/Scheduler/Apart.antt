-- ===== src/Scheduler/Apart.antt =====
-- `_has_critical_overlap` and the overlap graph against the running jobs.
use softos_sdd_orchestrator.Prelude.{
  String, Bool, true, false, ◌≡◌, refl, sym, some, List, [], ◌∷◌, ◌++◌, ◌∙◌, map, arith, ◌==◌,
  eq_iff, ◌&&◌, ◌||◌, Option-cases, Bool-cases, inl, inr, subst,
}
use softos_sdd_orchestrator.Prelude.Lists.{contains}
use softos_sdd_orchestrator.Table.Laws.{IsUnique}
use softos_sdd_orchestrator.Prelude.Sort.{sort}
use softos_sdd_orchestrator.Prelude.Text.{text_leb}
use softos_sdd_orchestrator.Prelude.Sets.{stripped}
use softos_sdd_orchestrator.Scheduler.Plan.{
  SlicePayload, Job, shares, has_critical_overlap, slice_of, jobs_of, sorted_names, pairs_of,
  overlap_pairs,
}
use softos_sdd_orchestrator.Scheduler.State.{SchedulerConfig, LockTable}
use softos_sdd_orchestrator.Scheduler.Loop.{Round, find_job}
use softos_sdd_orchestrator.Scheduler.Fresh.{contains-occurrences, occurrences-sort, jobs_of-IsPlan}
use softos_sdd_orchestrator.Scheduler.Pairs.{occurrences-map}
use softos_sdd_orchestrator.Scheduler.Sound.{AreApart, runs}
use softos_sdd_orchestrator.Scheduler.Whole.{run_slice_scheduler, run_slice_scheduler-IsSound}

shares-cons :
    (y : String) (xs ys : List String) → shares xs (y ∷ ys) ≡ (contains y xs || shares xs ys)
unfolding shares
shares-cons y [] ys = refl
shares-cons y (x ∷ xs) ys = ground (arith, shares-cons y xs ys, eq_iff x y, eq_iff y x)

shares-sym : (xs ys : List String) → shares xs ys ≡ shares ys xs
unfolding shares
shares-sym [] [] = refl
shares-sym [] (y ∷ ys) = shares-sym [] ys
shares-sym (x ∷ xs) ys = ground (arith, shares-sym xs ys, shares-cons x ys xs)

-- The pair is in the graph, one way or the other.
abbrev joined : String → String → List (String × String) → Bool
joined a b [] = false
joined a b ((left, right) ∷ pairs) = (left == a && right == b) || joined a b pairs

joined-append :
    (a b : String) (xs ys : List (String × String))
    → joined a b (xs ++ ys) ≡ (joined a b xs || joined a b ys)
joined-append a b [] ys = refl
joined-append a b ((left, right) ∷ xs) ys = ground (arith, joined-append a b xs ys)

joined-AreApart :
    (a b : String) (jobs : List Job) (pairs : List (String × String))
    → AreApart jobs pairs
    → joined a b pairs ≡ true
    → (runs a jobs && runs b jobs) ≡ false
joined-AreApart a b jobs [] h e = absurd (ground arith)
joined-AreApart a b jobs ((left, right) ∷ pairs) h e = elim (Bool-cases (left == a && right == b)) [
  | inl here ↦
      let one : left ≡ a = ground (arith, eq_iff left a) in
      let two : right ≡ b = ground (arith, eq_iff right b) in
      subst (λ x. (runs x jobs && runs b jobs) ≡ false) one
        (subst (λ y. (runs left jobs && runs y jobs) ≡ false) two h.0)
  | inr there ↦ joined-AreApart a b jobs pairs h.1 (ground arith)
]

module _ (jobs : List Job) (a b : String) (job_a job_b : Job)
    (found_a : find_job a jobs ≡ some job_a) (found_b : find_job b jobs ≡ some job_b)
    (overlap : has_critical_overlap job_a job_b ≡ true) where
  pairs_of-joined :
      (names : List String) → contains b names ≡ true → joined a b (pairs_of jobs a names) ≡ true
  unfolding pairs_of
  pairs_of-joined [] h = absurd (ground arith)
  pairs_of-joined (right ∷ names) h = elim (Bool-cases (right == b)) [
    | inl here ↦
        let found : find_job right jobs ≡ some job_b =
          subst (λ n. find_job n jobs ≡ some job_b) (sym ((eq_iff right b).0 here)) found_b in
        rw (found_a, pairs_of) (rw found (rw overlap (ground (arith, eq_iff a a))))
    | inr there ↦
        let rest = pairs_of-joined names (rw there at h) in
        elim (Option-cases (find_job right jobs)) [
          | inl absent ↦ rw (found_a, pairs_of) (rw absent rest)
          | inr (other, found) ↦ elim (Bool-cases (has_critical_overlap job_a other)) [
            | inl over ↦ rw (found_a, pairs_of) (rw found (rw over (ground arith)))
            | inr apart ↦ rw (found_a, pairs_of) (rw found (rw apart rest))
          ]
        ]
  ]

has_critical_overlap-sym :
    (job_a job_b : Job) → has_critical_overlap job_a job_b ≡ has_critical_overlap job_b job_a
unfolding has_critical_overlap
has_critical_overlap-sym job_a job_b =
    shares-sym (stripped job_a.owned_targets) (stripped job_b.owned_targets)

overlap_pairs-joined :
    (jobs : List Job) (a b : String) (job_a job_b : Job)
    → find_job a jobs ≡ some job_a
    → find_job b jobs ≡ some job_b
    → has_critical_overlap job_a job_b ≡ true
    → (a == b) ≡ false
    → (names : List String) → contains a names ≡ true
    → contains b names ≡ true
    → (joined a b (overlap_pairs jobs names) || joined b a (overlap_pairs jobs names)) ≡ true
unfolding overlap_pairs
overlap_pairs-joined jobs a b job_a job_b found_a found_b overlap unlike [] ha hb =
    absurd (ground arith)
overlap_pairs-joined jobs a b job_a job_b found_a found_b overlap unlike (left ∷ names) ha hb =
    let there = overlap_pairs-joined jobs a b job_a job_b found_a found_b overlap unlike names in
    let split =
      λ (x y : String). joined-append x y (pairs_of jobs left names) (overlap_pairs jobs names) in
    elim (Bool-cases (left == a)) [
      | inl first ↦
          let behind : contains b names ≡ true = ground (arith, eq_iff left a, eq_iff left b) in
          let pair = pairs_of-joined jobs a b job_a job_b found_a found_b overlap names behind in
          let here : joined a b (pairs_of jobs left names) ≡ true =
            subst (λ n. joined a b (pairs_of jobs n names) ≡ true) (sym ((eq_iff left a).0 first))
              pair in
          ground (arith, split a b)
      | inr other ↦ elim (Bool-cases (left == b)) [
        | inl second ↦
            let behind : contains a names ≡ true = ground (arith) in
            let pair =
              pairs_of-joined jobs b a job_b job_a found_b found_a
                (has_critical_overlap-sym job_b job_a ∙ overlap) names behind in
            let here : joined b a (pairs_of jobs left names) ≡ true =
              subst (λ n. joined b a (pairs_of jobs n names) ≡ true)
                (sym ((eq_iff left b).0 second)) pair in
            ground (arith, split b a)
        | inr neither ↦ ground (arith, split a b, split b a, there (ground arith) (ground arith))
      ]
    ]

contains-names :
    (a : String) (job : Job) (jobs : List Job)
    → IsUnique slice_of jobs
    → find_job a jobs ≡ some job
    → contains a (sorted_names jobs) ≡ true
unfolding sorted_names
contains-names a job jobs u found = ground (
  arith,
  contains-occurrences a (sort text_leb (map slice_of jobs)),
  occurrences-sort a (map slice_of jobs),
  occurrences-map a jobs u,
)

-- Two slices of the plan with a common target (`owned_targets`, stripped) do not run at the same
-- time, whatever the workers return, the clock reads and the locks answer.
pub overlapping_apart :
    (L : LockTable) (config : SchedulerConfig) (payloads : List SlicePayload) (locks : L.Locks)
    (rounds : List Round) (a b : String) (job_a job_b : Job)
    → find_job a (jobs_of payloads []) ≡ some job_a
    → find_job b (jobs_of payloads []) ≡ some job_b
    → has_critical_overlap job_a job_b ≡ true
    → (a == b) ≡ false
    → (let s = run_slice_scheduler L config payloads locks rounds in
        (runs a s.jobs && runs b s.jobs) ≡ false)
overlapping_apart L config payloads locks rounds a b job_a job_b found_a found_b overlap unlike =
    let jobs = jobs_of payloads [] in
    let s = run_slice_scheduler L config payloads locks rounds in
    let pairs = overlap_pairs jobs (sorted_names jobs) in
    let plan = jobs_of-IsPlan payloads [] (tt, tt) in
    let sound = run_slice_scheduler-IsSound L config payloads locks rounds in
    let pair =
      overlap_pairs-joined jobs a b job_a job_b found_a found_b overlap unlike (sorted_names jobs)
        (contains-names a job_a jobs plan.0 found_a) (contains-names b job_b jobs plan.0 found_b) in
    ground (
      arith,
      pair,
      joined-AreApart a b s.jobs pairs sound.apart,
      joined-AreApart b a s.jobs pairs sound.apart,
    )
