-- ===== src/Scheduler/Fresh.antt =====
-- The table of jobs before the first round.
use softos_sdd_orchestrator.Prelude.{
  ◌≤◌, String, true, false, ◌≡◌, refl, List, [], ◌∷◌, arith, ◌==◌, eq_iff, Bool-cases, inl, inr,
  Option-cases,
}
use softos_sdd_orchestrator.Prelude.Text.{text_leb}
use softos_sdd_orchestrator.Prelude.Strip.{strip}
use softos_sdd_orchestrator.Prelude.Sort.{sort, insert_sorted}
use softos_sdd_orchestrator.Prelude.Lists.{contains, All}
use softos_sdd_orchestrator.Table.{select, insert, update}
use softos_sdd_orchestrator.Table.Laws.{IsUnique, insert-IsUnique}
use softos_sdd_orchestrator.Table.Replace.{replaced-IsUnique}
use softos_sdd_orchestrator.Prelude.Sets.{dedupe, sorted_set, stripped, non_blank}
use softos_sdd_orchestrator.Scheduler.Plan.{
  SlicePayload, Job, slice_of, hot_areas_of, pattern_areas, new_job, put_job, jobs_of,
}
use softos_sdd_orchestrator.Scheduler.Loop.{is_pending}
use softos_sdd_orchestrator.Scheduler.Counts.{occurrences}

occurrences-insert_sorted :
    (k x : String) (xs : List String)
    → occurrences k (insert_sorted text_leb x xs) ≡ occurrences k (x ∷ xs)
unfolding occurrences insert_sorted
occurrences-insert_sorted k x [] = refl
occurrences-insert_sorted k x (y ∷ ys) = ground (arith, occurrences-insert_sorted k x ys)

pub occurrences-sort :
    (k : String) (xs : List String) → occurrences k (sort text_leb xs) ≡ occurrences k xs
unfolding occurrences sort
occurrences-sort k [] = refl
occurrences-sort k (x ∷ xs) =
    ground (arith, occurrences-sort k xs, occurrences-insert_sorted k x (sort text_leb xs))

pub contains-occurrences :
    (k : String) (xs : List String) → contains k xs ≡ false → occurrences k xs ≡ 0
unfolding occurrences
contains-occurrences k [] h = refl
contains-occurrences k (x ∷ xs) h = ground (arith, contains-occurrences k xs)

occurrences-dedupe : (k : String) (xs : List String) → occurrences k (dedupe xs) ≤ 1
unfolding occurrences dedupe
occurrences-dedupe k [] = omega arith
occurrences-dedupe k (x ∷ xs) =
    ground (arith, occurrences-dedupe k xs, contains-occurrences x (dedupe xs), eq_iff x k)

occurrences-sorted_set : (k : String) (xs : List String) → occurrences k (sorted_set xs) ≤ 1
unfolding sorted_set
occurrences-sorted_set k xs = omega (arith, occurrences-sort k (dedupe xs), occurrences-dedupe k xs)

occurrences-hot_areas_of :
    (k : String) (payload : SlicePayload) → occurrences k (hot_areas_of payload) ≤ 1
unfolding hot_areas_of occurrences
occurrences-hot_areas_of k payload = ground (
  arith,
  occurrences-sorted_set k (stripped payload.hot_areas),
  occurrences-sorted_set k (pattern_areas (non_blank payload.owned_patterns)),
)

-- A job that has not been touched since the plan was read.
pub record IsFresh (job : Job) : Type 0 where
  pub idle : is_pending job ≡ true
  pub untried : job.attempt ≡ 0
  pub once : (area : String) → occurrences area job.hot_areas ≤ 1

new_job-IsFresh : (payload : SlicePayload) → IsFresh (new_job payload)
unfolding new_job
new_job-IsFresh payload = record {
  idle = refl;
  untried = refl;
  once = λ area. occurrences-hot_areas_of area payload;
}

insert-All :
    (job : Job) (jobs : List Job) → IsFresh job → All IsFresh jobs → All IsFresh (insert job jobs)
unfolding insert
insert-All job [] h hs = (h, tt)
insert-All job (j ∷ jobs) h hs = (hs.0, insert-All job jobs h hs.1)

update-All :
    (k : String) (job : Job) (jobs : List Job)
    → IsFresh job
    → All IsFresh jobs
    → All IsFresh (update slice_of k (λ _. job) jobs)
unfolding update
update-All k job [] h hs = tt
update-All k job (j ∷ jobs) h hs = elim (Bool-cases (j.slice == k)) [
  | inl same ↦ rw same (h, update-All k job jobs h hs.1)
  | inr other ↦ rw other (hs.0, update-All k job jobs h hs.1)
]

-- A table of fresh jobs with different names.
abbrev pub IsPlan : List Job → Type 0
IsPlan jobs = IsUnique slice_of jobs × All IsFresh jobs

put_job-IsPlan :
    (job : Job) (jobs : List Job) → IsFresh job → IsPlan jobs → IsPlan (put_job job jobs)
unfolding put_job
put_job-IsPlan job jobs h plan = elim (Option-cases (select slice_of job.slice jobs)) [
  | inl absent ↦
      rw (absent, put_job)
        (insert-IsUnique slice_of job jobs absent plan.0, insert-All job jobs h plan.1)
  | inr (old, found) ↦
      rw (found, put_job)
        (replaced-IsUnique slice_of job jobs plan.0, update-All job.slice job jobs h plan.1)
]

pub jobs_of-IsPlan :
    (payloads : List SlicePayload) (jobs : List Job) → IsPlan jobs → IsPlan (jobs_of payloads jobs)
unfolding jobs_of
jobs_of-IsPlan [] jobs plan = plan
jobs_of-IsPlan (payload ∷ payloads) jobs plan = elim (Bool-cases (strip payload.name == "")) [
  | inl blank ↦ rw (blank, jobs_of) (jobs_of-IsPlan payloads jobs plan)
  | inr named ↦
      rw (named, jobs_of)
        (jobs_of-IsPlan payloads (put_job (new_job payload) jobs)
          (put_job-IsPlan (new_job payload) jobs (new_job-IsFresh payload) plan))
]
