-- ===== src/AgentResources/Registry.antt =====
-- `parse_resource_registry`, by the entries of `agent_resources.resources`.
use softos_sdd_orchestrator.Prelude.{
  ℕ, suc, String, Bool, true, false, not, ◌||◌, Option, none, some, List, [], ◌∷◌, ◌++◌, ◌==◌,
  if◌then◌else◌, leb, nat_eq,
}
use softos_sdd_orchestrator.Prelude.Int.{ℤ, pos}
use softos_sdd_orchestrator.Prelude.Result.{Result, ok, err, ◌>>=◌, ◌>>◌, ensure}
use softos_sdd_orchestrator.Prelude.Lists.{contains, filter}
use softos_sdd_orchestrator.Prelude.Sets.{sorted_set}
use softos_sdd_orchestrator.Prelude.Order.{head?}
use softos_sdd_orchestrator.Prelude.Dict.{Dict, is_key, keys, sorted_items}
use softos_sdd_orchestrator.Prelude.Collect.{collect}
use softos_sdd_orchestrator.Prelude.Json.{
  Json, null, int, text, arr, obj, Items, nil, item, end, fields, get, get_or, stripped_text,
  is_one, unknown_field,
}
use softos_sdd_orchestrator.AgentExecutors.Data.{AgentExecutor, AgentRegistryError}
use softos_sdd_orchestrator.AgentExecutors.Parse.{is_executor_id, parse_agents_registry}
use softos_sdd_orchestrator.AgentResources.Data.{
  AgentResource, ModelResolution, wrapper_profile, worker_profile, dynamic_free, dynamic_go,
  process_override, CostTier, local, cloud_free, cloud_paid_low, DataSensitivity, local_only,
  cloud_eligible,
}

-- `AgentResourceError`, by what its messages show.
pub data RegistryError : Type 0 where
  no_section section_not_object no_resources : RegistryError
  bad_schema_version : Json → RegistryError
  bad_executors : AgentRegistryError → RegistryError
  bad_id duplicate_id entry_not_object : (resource_id : String) → RegistryError
  forbidden_field unknown_entry_field : (resource_id name : String) → RegistryError
  blank_executor : (resource_id : String) → RegistryError
  unknown_executor : (resource_id executor_id : String) → RegistryError
  no_capabilities : (resource_id : String) → RegistryError
  blank_capability : (resource_id : String) (index : ℕ) → RegistryError
  duplicate_capability : (resource_id capability : String) → RegistryError
  bad_capacity : (resource_id : String) → Json → RegistryError
  local_capacity : (resource_id : String) → RegistryError
  bad_cost_tier bad_priority bad_resolution : (resource_id : String) → Json → RegistryError
  wrong_resolution : (resource_id : String) → RegistryError
  bad_sensitivity bad_tie_break : (resource_id : String) → Json → RegistryError
  missing_resources : List String → RegistryError
  concrete_resolution : (resource_id : String) → RegistryError

abbrev Parsed : Type 0 → Type 0
Parsed A = Result RegistryError A

-- RESOURCE_FIELDS
abbrev pub resource_fields : List String
resource_fields =
    "executor" ∷ "capabilities" ∷ "capacity" ∷ "cost_tier" ∷ "selection_priority"
    ∷ "model_resolution" ∷ "data_sensitivity" ∷ "candidate_tie_break" ∷ []

-- FORBIDDEN_RESOURCE_FIELDS
abbrev pub forbidden_resource_fields : List String
forbidden_resource_fields =
    "token" ∷ "tokens" ∷ "credential" ∷ "credentials" ∷ "secret" ∷ "secrets" ∷ "api_key"
    ∷ "api_keys" ∷ "password" ∷ "passwd" ∷ "auth" ∷ "authorization" ∷ "provider" ∷ "providers"
    ∷ "model" ∷ "models" ∷ "provider_id" ∷ "model_id" ∷ "openai_api_key" ∷ "anthropic_api_key" ∷ []

-- REQUIRED_RESOURCE_IDS
abbrev pub required_resource_ids : List String
required_resource_ids = "opencode-local" ∷ "opencode-free" ∷ "opencode-go" ∷ []

abbrev pub cost_tier_named : String → Option CostTier
cost_tier_named name =
    if name == "local"
    then some local
    else if name == "cloud/free"
    then some cloud_free
    else if name == "cloud/paid-low"
    then some cloud_paid_low
    else none

abbrev pub resolution_named : String → Option ModelResolution
resolution_named name =
    if name == "wrapper_profile"
    then some wrapper_profile
    else if name == "worker_profile"
    then some worker_profile
    else if name == "dynamic_free"
    then some dynamic_free
    else if name == "dynamic_go"
    then some dynamic_go
    else if name == "process_override"
    then some process_override
    else none

abbrev pub sensitivity_named : String → Option DataSensitivity
sensitivity_named name =
    if name == "local-only"
    then some local_only
    else if name == "cloud-eligible"
    then some cloud_eligible
    else none

abbrev pub demand : {A : Type 0} → Option A → RegistryError → Parsed A
demand none e = err e
demand (some a) e = ok a

abbrev pub without : Option String → (String → RegistryError) → Parsed (Unit {0})
without none e = ok tt
without (some name) e = err (e name)

abbrev pub entry_of : Json → RegistryError → Parsed (Dict Json)
entry_of (obj fs) e = ok (fields fs)
entry_of _ e = err e

-- sorted(set(entry) & FORBIDDEN_RESOURCE_FIELDS)[0], if there is one
unfoldable pub forbidden_in : Dict Json → Option String
unfolding sorted_set
forbidden_in entry =
    head? (sorted_set (filter (λ k. contains k forbidden_resource_fields) (keys entry)))

unfoldable pub executor_of : Dict AgentExecutor → String → Json → Parsed String
unfolding stripped_text
executor_of executors resource_id value = do
  executor_id ← demand (stripped_text value) (blank_executor resource_id)
  ensure (is_key executor_id executors) (unknown_executor resource_id executor_id)
  ok executor_id

-- The loop over the capabilities, after those that are there.
unfoldable pub capabilities_from : String → ℕ → List String → Items → Parsed (List String)
unfolding stripped_text
capabilities_from resource_id index capabilities nil = ok capabilities
capabilities_from resource_id index capabilities (item value vs) = do
  capability ← demand (stripped_text value) (blank_capability resource_id index)
  ensure (not (contains capability capabilities)) (duplicate_capability resource_id capability)
  capabilities_from resource_id (suc index) (capabilities ++ capability ∷ []) vs

abbrev pub capabilities_of : String → Json → Parsed (List String)
capabilities_of resource_id (arr (item v vs)) = capabilities_from resource_id 0 [] (item v vs)
capabilities_of resource_id _ = err (no_capabilities resource_id)

abbrev pub capacity_of : String → Json → Parsed ℕ
capacity_of resource_id (int (pos n)) =
    ensure (leb 1 n) (bad_capacity resource_id (int (pos n))) >>= λ _.
    ensure (not (resource_id == "opencode-local") || nat_eq n 1) (local_capacity resource_id)
    >>= λ _. ok n
capacity_of resource_id value = err (bad_capacity resource_id value)

abbrev pub cost_tier_of : String → Json → Parsed CostTier
cost_tier_of resource_id (text name) =
    demand (cost_tier_named name) (bad_cost_tier resource_id (text name))
cost_tier_of resource_id value = err (bad_cost_tier resource_id value)

abbrev pub priority_in : String → Json → Parsed ℤ
priority_in resource_id (int n) = ok n
priority_in resource_id value = err (bad_priority resource_id value)

-- The resolutions that each of the required resources may have.
abbrev pub is_own_resolution : ModelResolution → Bool
is_own_resolution worker_profile = true
is_own_resolution process_override = true
is_own_resolution _ = false

abbrev pub is_free_resolution : ModelResolution → Bool
is_free_resolution dynamic_free = true
is_free_resolution _ = false

abbrev pub is_go_resolution : ModelResolution → Bool
is_go_resolution dynamic_go = true
is_go_resolution _ = false

abbrev pub resolution_of : String → Json → Parsed ModelResolution
resolution_of resource_id (text name) =
    demand (resolution_named name) (bad_resolution resource_id (text name)) >>= λ resolution.
    ensure (not (resource_id == "opencode-local") || is_own_resolution resolution)
      (wrong_resolution resource_id)
    >>= λ _.
        ensure (not (resource_id == "opencode-free") || is_free_resolution resolution)
          (wrong_resolution resource_id)
        >>= λ _.
            ensure (not (resource_id == "opencode-go") || is_go_resolution resolution)
              (wrong_resolution resource_id)
            >>= λ _. ok resolution
resolution_of resource_id value = err (bad_resolution resource_id value)

abbrev pub sensitivity_of : String → Json → Parsed DataSensitivity
sensitivity_of resource_id (text name) =
    demand (sensitivity_named name) (bad_sensitivity resource_id (text name))
sensitivity_of resource_id value = err (bad_sensitivity resource_id value)

abbrev pub tie_break_of : String → Json → Parsed (Unit {0})
tie_break_of resource_id (text name) =
    ensure (name == "lexical") (bad_tie_break resource_id (text name))
tie_break_of resource_id value = err (bad_tie_break resource_id value)

-- The body of the loop over the entries.
unfoldable pub resource_of :
    Dict AgentExecutor → Dict AgentResource → String → Json → Parsed AgentResource
unfolding is_executor_id forbidden_in unknown_field get get_or executor_of capabilities_from
resource_of executors resources resource_id value = do
  ensure (is_executor_id resource_id) (bad_id resource_id)
  ensure (not (is_key resource_id resources)) (duplicate_id resource_id)
  entry ← entry_of value (entry_not_object resource_id)
  without (forbidden_in entry) (forbidden_field resource_id)
  without (unknown_field resource_fields entry) (unknown_entry_field resource_id)
  executor_id ← executor_of executors resource_id (get "executor" entry)
  capabilities ← capabilities_of resource_id (get "capabilities" entry)
  capacity ← capacity_of resource_id (get "capacity" entry)
  cost_tier ← cost_tier_of resource_id (get "cost_tier" entry)
  selection_priority ← priority_in resource_id (get "selection_priority" entry)
  model_resolution ← resolution_of resource_id (get "model_resolution" entry)
  data_sensitivity ← sensitivity_of resource_id (get "data_sensitivity" entry)
  tie_break_of resource_id (get_or "candidate_tie_break" (text "lexical") entry)
  ok (record {
    resource_id = resource_id;
    executor_id = executor_id;
    capabilities = capabilities;
    capacity = capacity;
    cost_tier = cost_tier;
    selection_priority = selection_priority;
    model_resolution = model_resolution;
    data_sensitivity = data_sensitivity;
  })

abbrev pub section_of : Json → Parsed (Dict Json)
section_of null = err no_section
section_of value = entry_of value section_not_object

abbrev pub resources_in : Json → Parsed (Dict Json)
resources_in (obj end) = err no_resources
resources_in value = entry_of value no_resources

-- The executors that are given, or those of the same configuration.
abbrev pub executors_for : Dict Json → Option (Dict AgentExecutor) → Parsed (Dict AgentExecutor)
executors_for workspace_config (some executors) = ok executors
executors_for workspace_config none = elim (parse_agents_registry workspace_config) [
  | ok executors ↦ ok executors
  | err e ↦ err (bad_executors e)
]

abbrev pub all_there : List String → Parsed (Unit {0})
all_there [] = ok tt
all_there missing = err (missing_resources missing)

-- `_assert_no_concrete_identity_branching`
unfoldable pub assert_no_concrete_identity_branching : Dict AgentResource → Parsed (Unit {0})
assert_no_concrete_identity_branching [] = ok tt
assert_no_concrete_identity_branching ((_, resource) ∷ resources) =
    let rest = assert_no_concrete_identity_branching resources in
    elim resource.model_resolution [
      | wrapper_profile ↦ rest
      | worker_profile ↦ rest
      | process_override ↦ rest
      | dynamic_free ↦ rest
      | dynamic_go ↦ rest
    ]

unfoldable pub parse_resource_registry :
    Dict Json → Option (Dict AgentExecutor) → Parsed (Dict AgentResource)
unfolding resource_of collect get sorted_items parse_agents_registry
    assert_no_concrete_identity_branching
parse_resource_registry workspace_config given_executors = do
  agent_resources ← section_of (get "agent_resources" workspace_config)
  ensure (is_one (get "schema_version" agent_resources))
      (bad_schema_version (get "schema_version" agent_resources))
  entries ← resources_in (get "resources" agent_resources)
  executors ← executors_for workspace_config given_executors
  resources ← collect (resource_of executors) [] entries
  all_there (filter (λ resource_id. not (is_key resource_id resources)) required_resource_ids)
  assert_no_concrete_identity_branching resources
  ok (sorted_items resources)
