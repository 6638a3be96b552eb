-- ===== src/AgentResources/Tests.antt =====
-- Three resources, selected for work, and their registry and models.
use softos_sdd_orchestrator.Prelude.{
  ℕ, String, false, Option, none, some, List, [], ◌∷◌, ◌==◌, ◌≡◌, refl, if◌then◌else◌, arith,
  Bool-cases, inl, inr,
}
use softos_sdd_orchestrator.Prelude.Int.{pos}
use softos_sdd_orchestrator.Prelude.Result.{ok, err}
use softos_sdd_orchestrator.Prelude.Strip.{
  is_space, lstrip, rstrip, strip, match_char, lower_char, lower,
}
use softos_sdd_orchestrator.Prelude.Upper.{upper_char, upper}
use softos_sdd_orchestrator.Prelude.Text.{text_leb}
use softos_sdd_orchestrator.Prelude.Sort.{insert_sorted, sort}
use softos_sdd_orchestrator.Prelude.Sets.{dedupe, sorted_set, stripped}
use softos_sdd_orchestrator.Prelude.Lists.{contains, filter}
use softos_sdd_orchestrator.Prelude.Dict.{Dict, IsDict, lookup, put, sorted_items}
use softos_sdd_orchestrator.Prelude.Collect.{collect}
use softos_sdd_orchestrator.Prelude.Json.{
  Json, int, text, arr, obj, nil, item, end, field, get, get_or, stripped_text, unknown_field,
}
use softos_sdd_orchestrator.AgentExecutors.Data.{AgentExecutor, opencode, cli, reject}
use softos_sdd_orchestrator.AgentExecutors.Parse.{is_id_char, is_id_rest, is_executor_id}
use softos_sdd_orchestrator.AgentResources.Data.{
  Availability, AgentResource, available, worker_profile, dynamic_free, dynamic_go, local,
  cloud_free, cloud_paid_low, local_only, cloud_eligible, ModelResolution, CostTier,
  DataSensitivity,
}
use softos_sdd_orchestrator.AgentResources.Availability.{
  Evidence, absent, text as text_evidence, state_named, normalize_availability,
}
use softos_sdd_orchestrator.AgentResources.Selection.{
  Demand, Choice, is_subset, is_admitted, filter_resources_for_selection, priority_of, rank_leb,
  order_resource_candidates, preferred_order_for_work_class, choose, select_resource_candidates,
}
use softos_sdd_orchestrator.AgentResources.Sound.{
  Selects, select_resource_candidates_outcome, select_resource_candidates_local,
}
use softos_sdd_orchestrator.AgentResources.Registry.{
  forbidden_in, executor_of, capabilities_from, resource_of, assert_no_concrete_identity_branching,
  parse_resource_registry, bad_cost_tier,
}
use softos_sdd_orchestrator.AgentResources.Accepted.{
  IsResourceRegistry, parse_resource_registry_sound,
}
use softos_sdd_orchestrator.AgentResources.Models.{
  Outcome, returned, ends_with, is_free, candidates, lexical_first, resolve_free_model,
  resolve_go_model,
}
use softos_sdd_orchestrator.AgentResources.Least.{resolve_free_model_congr}
use softos_sdd_orchestrator.AgentResources.Go.{Authorized, GoAnswers, resolve_go_model_outcome}

program : Unit {0}
unfolding is_space lstrip rstrip strip match_char lower_char lower upper_char upper text_leb
    insert_sorted sort dedupe sorted_set stripped filter lookup put sorted_items collect get get_or
    stripped_text unknown_field is_id_char is_id_rest is_executor_id state_named
    normalize_availability is_subset is_admitted filter_resources_for_selection priority_of rank_leb
    order_resource_candidates preferred_order_for_work_class choose select_resource_candidates
    forbidden_in executor_of capabilities_from resource_of assert_no_concrete_identity_branching
    parse_resource_registry ends_with is_free candidates lexical_first resolve_free_model
    resolve_go_model
program = tt

abbrev resource : String → ℕ → CostTier → ℕ → ModelResolution → DataSensitivity → AgentResource
resource resource_id capacity cost_tier priority resolution sensitivity = record {
  resource_id = resource_id;
  executor_id = "opencode";
  capabilities = "code" ∷ [];
  capacity = capacity;
  cost_tier = cost_tier;
  selection_priority = pos priority;
  model_resolution = resolution;
  data_sensitivity = sensitivity;
}

abbrev resources : Dict AgentResource
resources =
    ("opencode-free", resource "opencode-free" 2 cloud_free 20 dynamic_free cloud_eligible)
    ∷ ("opencode-go", resource "opencode-go" 2 cloud_paid_low 30 dynamic_go cloud_eligible)
    ∷ ("opencode-local", resource "opencode-local" 1 local 40 worker_profile local_only)
    ∷ []

abbrev all_available : Dict Evidence
all_available =
    ("opencode-free", text_evidence " available ")
    ∷ ("opencode-go", text_evidence "AVAILABLE")
    ∷ ("opencode-local", text_evidence "AVAILABLE")
    ∷ []

abbrev any_demand : Demand
any_demand = record {
  availability = all_available;
  required_capabilities = "code " ∷ [];
  data_sensitivity = none;
}

abbrev local_demand : Demand
local_demand = record {
  availability = all_available;
  required_capabilities = [];
  data_sensitivity = some "local-only";
}

abbrev micro_choice : Choice
micro_choice = record {
  work_class = "micro";
  candidates = "opencode-local" ∷ "opencode-free" ∷ "opencode-go" ∷ [];
  selected = some "opencode-local";
  preferred_order = "opencode-local" ∷ "opencode-free" ∷ [];
  filtered = "opencode-free" ∷ "opencode-go" ∷ "opencode-local" ∷ [];
}

-- The order of the work class comes before the priorities.
selected : select_resource_candidates resources any_demand " Micro" none ≡ ok micro_choice
unfolding program
selected = refl

resources_unique : IsDict resources
unfolding program
resources_unique = (refl, (refl, (refl, tt)))

select_resource_candidates_outcome_example :
    Selects resources any_demand " Micro" none
      (select_resource_candidates resources any_demand " Micro" none)
select_resource_candidates_outcome_example =
    select_resource_candidates_outcome resources any_demand " Micro" none resources_unique

abbrev local_choice : Choice
local_choice = record {
  work_class = "architecture";
  candidates = "opencode-local" ∷ [];
  selected = some "opencode-local";
  preferred_order = "codex" ∷ "cursor" ∷ "opencode-go" ∷ [];
  filtered = "opencode-local" ∷ [];
}

local_selected :
    select_resource_candidates resources local_demand "architecture" none ≡ ok local_choice
unfolding program
local_selected = refl

select_resource_candidates_local_example :
    (found : AgentResource) × (lookup "opencode-local" resources ≡ some found)
    × (found.data_sensitivity ≡ local_only)
select_resource_candidates_local_example =
    select_resource_candidates_local resources local_demand "architecture" none local_choice
      "opencode-local" resources_unique local_selected refl refl

abbrev entry : String → ℕ → ℕ → String → Json
entry tier capacity priority resolution = obj (
    field "executor" (text "opencode") (
      field "capabilities" (arr (item (text "code") nil)) (
        field "capacity" (int (pos capacity)) (
          field "cost_tier" (text tier) (
            field "selection_priority" (int (pos priority)) (
              field "model_resolution" (text resolution) (
                field "data_sensitivity"
                  (text (if tier == "local" then "local-only" else "cloud-eligible")) end)))))))

abbrev config : String → Dict Json
config tier =
    (
      "agent_resources",
      obj (
          field "schema_version" (int (pos 1)) (
            field "resources"
              (obj (
                field "opencode-local" (entry tier 1 40 "worker_profile") (
                  field "opencode-go" (entry "cloud/paid-low" 2 30 "dynamic_go")
                    (field "opencode-free" (entry "cloud/free" 2 20 "dynamic_free") end))))
              end)),
    )
    ∷ []

abbrev executors : Dict AgentExecutor
executors =
    (
      "opencode",
      record {
        executor_id = "opencode";
        adapter = opencode;
        executable = "opencode";
        argv = [];
        transport = cli;
        allow_cli_fallback = false;
        permission_policy = reject;
        acp_executable = none;
        acp_argv = [];
        acp_auth_method = none;
      },
    )
    ∷ []

accepted : parse_resource_registry (config "local") (some executors) ≡ ok resources
unfolding program
accepted = refl

bad_tier_refused :
    parse_resource_registry (config "free") (some executors)
    ≡ err (bad_cost_tier "opencode-local" (text "free"))
unfolding program
bad_tier_refused = refl

parse_resource_registry_sound_example :
    IsResourceRegistry (config "local") (some executors) resources
parse_resource_registry_sound_example =
    parse_resource_registry_sound (config "local") (some executors) resources accepted

abbrev discovered : List (Option String)
discovered =
    some "zeta-free" ∷ none ∷ some " alpha-free " ∷ some "opencode-go/a-free" ∷ some "paid" ∷ []

abbrev reordered : List (Option String)
reordered = some "alpha-free" ∷ some "zeta-free" ∷ some "alpha-free" ∷ []

alpha :
    resolve_free_model (returned discovered) "lexical"
    ≡ ok (record { availability = available; model_id = some "alpha-free"; reason = none })
unfolding program
alpha = refl

same_models :
    (k : String)
    → contains k (candidates is_free discovered) ≡ contains k (candidates is_free reordered)
unfolding program
same_models k = elim (Bool-cases ("alpha-free" == k)) [
  | inl a ↦ rw a (ground arith)
  | inr b ↦ rw b (ground arith)
]

resolve_free_model_congr_example :
    resolve_free_model (returned discovered) "lexical"
    ≡ resolve_free_model (returned reordered) "lexical"
resolve_free_model_congr_example =
    resolve_free_model_congr discovered reordered "lexical" same_models

resolve_go_model_outcome_example :
    (auth : Outcome Availability) × Authorized absent
      (some (returned (text_evidence " available ")))
      auth
    × GoAnswers (returned discovered) "lexical" auth (
        resolve_go_model
          (returned discovered)
          absent
          (some (returned (text_evidence " available ")))
          "lexical")
resolve_go_model_outcome_example =
    resolve_go_model_outcome (returned discovered) absent
      (some (returned (text_evidence " available "))) "lexical"
