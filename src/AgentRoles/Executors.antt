-- ===== src/AgentRoles/Executors.antt =====
-- `select_orchestrator_executor`: the first executor of the priority that is ready.
use softos_sdd_orchestrator.Prelude.{
  String, Bool, true, false, Option, none, some, List, [], ◌∷◌, ◌++◌, ◌==◌, if◌then◌else◌, ◌≡◌,
  refl, ◌∙◌, Bool-cases, Option-cases, inl, inr,
}
use softos_sdd_orchestrator.Prelude.Lists.{All}
use softos_sdd_orchestrator.Prelude.Result.{Result, ok, err}
use softos_sdd_orchestrator.Prelude.Dict.{Dict, lookup}
use softos_sdd_orchestrator.AgentExecutors.Data.{AgentExecutor}

-- What the payload tells of a candidate.
pub record Candidate : Type 0 where
  pub id : String
  pub executor : Option String
  pub status : String

pub record Selection : Type 0 where
  pub chosen : AgentExecutor
  pub selected : String
  pub candidates : List Candidate

-- `AgentRoleError` with the candidates that its message lists.
pub data ExecutorError : Type 0 where
  no_executor : List Candidate → ExecutorError

-- ORCHESTRATOR_EXECUTOR_PRIORITY
abbrev pub orchestrator_executor_priority : List String
orchestrator_executor_priority = "codex" ∷ "cursor" ∷ "opencode-go" ∷ "opencode" ∷ []

abbrev pub executor_id_of : String → String
executor_id_of candidate_id = if candidate_id == "opencode-go" then "opencode" else candidate_id

module _ (executors : Dict AgentExecutor) (executable_status : String → String) where
  abbrev pub candidate_of : String → AgentExecutor → Candidate
  candidate_of candidate_id executor = record {
    id = candidate_id;
    executor = some executor.executor_id;
    status = executable_status executor.executable;
  }

  -- The loop over the priority, after the candidates that were passed over.
  unfoldable pub first_ready : List Candidate → List String → Result ExecutorError Selection
  unfolding lookup
  first_ready candidates [] = err (no_executor candidates)
  first_ready candidates (candidate_id ∷ priority) =
      elim (lookup (executor_id_of candidate_id) executors) [
        | none ↦
            first_ready
              (candidates
                ++ record { id = candidate_id; executor = none; status = "unregistered" } ∷ [])
              priority
        | some executor ↦
            let seen = candidates ++ candidate_of candidate_id executor ∷ [] in
            let rest = first_ready seen priority in
            if executable_status executor.executable == "ready"
            then ok (record { chosen = executor; selected = candidate_id; candidates = seen })
            else rest
      ]

  unfoldable pub select_orchestrator_executor : List String → Result ExecutorError Selection
  unfolding first_ready
  select_orchestrator_executor priority = first_ready [] priority

  -- Whether a candidate is registered and its program is ready.
  abbrev pub is_ready : String → Bool
  is_ready candidate_id = elim (lookup (executor_id_of candidate_id) executors) [
    | none ↦ false
    | some executor ↦ executable_status executor.executable == "ready"
  ]

  -- The outcomes of a selection from a priority.
  pub data Selects : List String → Result ExecutorError Selection → Type 0 where
    first :
        (before after : List String) (selection : Selection)
        → All (λ c. is_ready c ≡ false) before
        → is_ready selection.selected ≡ true
        → lookup (executor_id_of selection.selected) executors ≡ some selection.chosen
        → Selects (before ++ selection.selected ∷ after) (ok selection)
    nobody :
        (priority : List String) (candidates : List Candidate)
        → All (λ c. is_ready c ≡ false) priority
        → Selects priority (err (no_executor candidates))

  passed :
      (candidate_id : String) (priority : List String) (result : Result ExecutorError Selection)
      → is_ready candidate_id ≡ false
      → Selects priority result
      → Selects (candidate_id ∷ priority) result
  passed candidate_id _ _ not_ready (first before after selection none_before ready found) =
      first (candidate_id ∷ before) after selection (not_ready, none_before) ready found
  passed candidate_id _ _ not_ready (nobody priority candidates none_ready) =
      nobody (candidate_id ∷ priority) candidates (not_ready, none_ready)

  unregistered : (c : String) → lookup (executor_id_of c) executors ≡ none → is_ready c ≡ false
  unregistered c missing = rw (missing, is_ready) refl

  status_of :
      (c : String) (executor : AgentExecutor)
      → lookup (executor_id_of c) executors ≡ some executor
      → is_ready c ≡ (executable_status executor.executable == "ready")
  status_of c executor found = rw (found, is_ready) refl

  first_ready-Selects :
      (priority : List String) (candidates : List Candidate)
      → Selects priority (first_ready candidates priority)
  unfolding first_ready
  first_ready-Selects [] candidates = nobody [] candidates tt
  first_ready-Selects (c ∷ priority) candidates =
      elim (Option-cases (lookup (executor_id_of c) executors)) [
        | inl missing ↦
            rw (missing, first_ready)
              (passed c priority _ (unregistered c missing) (first_ready-Selects priority _))
        | inr (executor, found) ↦
            elim (Bool-cases (executable_status executor.executable == "ready")) [
              | inl ready ↦
                  rw (found, first_ready)
                    (rw ready (first [] priority _ tt (status_of c executor found ∙ ready) found))
              | inr waiting ↦
                  rw (found, first_ready)
                    (rw waiting (
                      passed c priority _ (status_of c executor found ∙ waiting)
                        (first_ready-Selects priority _)))
            ]
      ]

  -- The selection takes the first id of the priority whose executor is registered and ready, where
  -- opencode-go stands for the executor opencode, and gives that executor; it fails exactly when none is.
  pub select_orchestrator_executor_outcome :
      (priority : List String) → Selects priority (select_orchestrator_executor priority)
  unfolding select_orchestrator_executor
  select_orchestrator_executor_outcome priority = first_ready-Selects priority []
