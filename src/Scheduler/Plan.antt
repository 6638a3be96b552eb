-- ===== src/Scheduler/Plan.antt =====
-- The part of `run_slice_scheduler` that reads the plan: `_hot_areas`, `_semantic_locks`,
-- `_has_critical_overlap` and the table of jobs. A payload holds the texts of its JSON values.
use Prim.Native.Char.{code}
use softos_sdd_orchestrator.Prelude.{
  ℕ, String, Bool, false, Option, none, some, List, [], ◌∷◌, ◌++◌, map, ◌&&◌, ◌||◌, not, ◌==◌,
  nat_eq, if◌then◌else◌,
}
use softos_sdd_orchestrator.Prelude.Int.{ℤ}
use softos_sdd_orchestrator.Prelude.Text.{concat, text_leb}
use softos_sdd_orchestrator.Prelude.Strip.{strip, lower}
use softos_sdd_orchestrator.Prelude.Sort.{sort}
use softos_sdd_orchestrator.Prelude.Lists.{contains}
use softos_sdd_orchestrator.Prelude.Sets.{stripped, non_blank, sorted_set, has}
use softos_sdd_orchestrator.Table.{select_where, select, insert, update}

pub record SlicePayload : Type 0 where
  pub name : String
  pub repo : String
  pub depends_on : List String
  pub hot_areas : List String
  pub hot_area : String
  pub owned_patterns : List String
  pub semantic_locks : List String
  pub owned_targets : List String

-- pattern.replace("\\", "/")
unfoldable pub slashes : String → String
slashes String.[] = ""
slashes (String.◌∷◌ c s) = String.◌∷◌ (if nat_eq (code c) b'\\' then "/" else c) (slashes s)

-- text.split("/"): the first part, and the others behind it.
unfoldable pub split_slash : String → String × List String
split_slash String.[] = ("", [])
split_slash (String.◌∷◌ c s) =
    let (first, rest) = split_slash s in
    if nat_eq (code c) b'/' then ("", first ∷ rest) else (String.◌∷◌ c first, rest)

-- The first two parts that are neither empty nor `**`, joined; no text if there is none. Slashes at
-- the ends only make empty parts, so `strip("/")` has no effect of its own.
unfoldable pub area_parts : String → List String
unfolding slashes split_slash
area_parts pattern =
    let (first, rest) = split_slash (slashes pattern) in
    select_where (λ part. not (part == "") && not (part == "**")) (first ∷ rest)

abbrev pub first_two : List String → Option String
first_two [] = none
first_two (a ∷ []) = some a
first_two (a ∷ b ∷ rest) = some (concat (a ∷ "/" ∷ b ∷ []))

unfoldable pub pattern_areas : List String → List String
unfolding area_parts
pattern_areas [] = []
pattern_areas (pattern ∷ patterns) =
    let rest = pattern_areas patterns in
    elim (first_two (area_parts pattern)) [ none ↦ rest | some area ↦ area ∷ rest ]

-- _hot_areas
unfoldable pub hot_areas_of : SlicePayload → List String
unfolding stripped non_blank sorted_set pattern_areas
hot_areas_of payload = elim (stripped payload.hot_areas) [
  | x ∷ xs ↦ sorted_set (x ∷ xs)
  | [] ↦
      if strip payload.hot_area == ""
      then sorted_set (pattern_areas (non_blank payload.owned_patterns))
      else strip payload.hot_area ∷ []
]

unfoldable pub inferred : String → List String
inferred target =
    let normalized = lower target in
    (if has normalized "migrations" then "db:migrations" ∷ [] else [])
    ++ ((if has normalized "/api/" || has normalized "routes" then "api:routes" ∷ [] else [])
        ++ (if has normalized "contract" then "contracts:schema" ∷ [] else []))

unfoldable pub inferred_all : List String → List String
unfolding inferred
inferred_all [] = []
inferred_all (target ∷ targets) = inferred target ++ inferred_all targets

-- _semantic_locks
unfoldable pub semantic_locks_of : SlicePayload → List String
unfolding stripped non_blank sorted_set inferred_all
semantic_locks_of payload = elim (stripped payload.semantic_locks) [
  | x ∷ xs ↦ sorted_set (x ∷ xs)
  | [] ↦ sorted_set (inferred_all (non_blank payload.owned_targets))
]

pub data Status : Type 0 where
  pending running passed failed blocked : Status

-- job["failure_reason"]
pub data Failure : Type 0 where
  execution_failed retry_scheduled : (rc : ℤ) → Failure
  dependency_failed : (parent : String) → Failure

-- The reasons for which a job waits.
pub data WaitReason : Type 0 where
  dag_wait repo_capacity hot_area_capacity overlap lock_wait : String → WaitReason

-- An entry of `jobs`, without the times that only the report shows.
pub record Job : Type 0 where
  pub slice : String
  pub repo : String
  pub depends_on : List String
  pub hot_areas : List String
  pub semantic_locks : List String
  pub owned_targets : List String
  pub status : Status
  pub attempt : ℕ
  pub worker : Option ℕ
  pub failure_reason : Option Failure
  pub wait_reasons : List WaitReason

abbrev pub slice_of : Job → String
slice_of job = job.slice

unfoldable pub new_job : SlicePayload → Job
unfolding hot_areas_of semantic_locks_of
new_job payload = record {
  slice = strip payload.name;
  repo = strip payload.repo;
  depends_on = stripped payload.depends_on;
  hot_areas = hot_areas_of payload;
  semantic_locks = semantic_locks_of payload;
  owned_targets = payload.owned_targets;
  status = pending;
  attempt = 0;
  worker = none;
  failure_reason = none;
  wait_reasons = [];
}

-- jobs[job["slice"]] = job: a later slice of the same name takes the place of the earlier.
unfoldable pub put_job : Job → List Job → List Job
put_job job jobs = elim (select slice_of job.slice jobs) [
  | none ↦ insert job jobs
  | some _ ↦ update slice_of job.slice (λ _. job) jobs
]

unfoldable pub jobs_of : List SlicePayload → List Job → List Job
unfolding new_job put_job
jobs_of [] jobs = jobs
jobs_of (payload ∷ payloads) jobs =
    jobs_of payloads (if strip payload.name == "" then jobs else put_job (new_job payload) jobs)

-- sorted(jobs)
unfoldable pub sorted_names : List Job → List String
sorted_names jobs = sort text_leb (map slice_of jobs)

-- _has_critical_overlap
unfoldable pub shares : List String → List String → Bool
shares [] ys = false
shares (x ∷ xs) ys = contains x ys || shares xs ys

unfoldable pub has_critical_overlap : Job → Job → Bool
unfolding stripped shares
has_critical_overlap a b = shares (stripped a.owned_targets) (stripped b.owned_targets)

-- The pairs of `left` and each later name whose jobs overlap.
unfoldable pub pairs_of : List Job → String → List String → List (String × String)
unfolding has_critical_overlap
pairs_of jobs left [] = []
pairs_of jobs left (right ∷ names) =
    let rest = pairs_of jobs left names in
    elim (select slice_of left jobs) [
      | none ↦ rest
      | some a ↦ elim (select slice_of right jobs) [
        | none ↦ rest
        | some b ↦ if has_critical_overlap a b then (left, right) ∷ rest else rest
      ]
    ]

-- overlap_pairs
unfoldable pub overlap_pairs : List Job → List String → List (String × String)
unfolding pairs_of
overlap_pairs jobs [] = []
overlap_pairs jobs (left ∷ names) = pairs_of jobs left names ++ overlap_pairs jobs names
