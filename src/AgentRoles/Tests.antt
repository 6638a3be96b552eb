-- ===== src/AgentRoles/Tests.antt =====
-- Roles at concrete arguments, an orchestrator among three executors, and reviewers.
use softos_sdd_orchestrator.Prelude.{
  String, false, none, some, [], ◌∷◌, ◌==◌, ◌≡◌, ◌≢◌, refl, if◌then◌else◌,
}
use softos_sdd_orchestrator.Prelude.Int.{pos}
use softos_sdd_orchestrator.Prelude.Result.{ok, err}
use softos_sdd_orchestrator.Prelude.Strip.{
  is_space, lstrip, rstrip, strip, match_char, lower_char, lower,
}
use softos_sdd_orchestrator.Prelude.Upper.{upper_char, upper}
use softos_sdd_orchestrator.Prelude.Text.{text_leb, concat}
use softos_sdd_orchestrator.Prelude.Sort.{insert_sorted, sort}
use softos_sdd_orchestrator.Prelude.Sets.{stripped}
use softos_sdd_orchestrator.Prelude.Lists.{filter}
use softos_sdd_orchestrator.Prelude.Dict.{Dict, lookup, sorted_items}
use softos_sdd_orchestrator.AgentExecutors.Data.{AgentExecutor, codex, cursor, cli, reject, Adapter}
use softos_sdd_orchestrator.AgentResources.Data.{
  AgentResource, ModelResolution, wrapper_profile, dynamic_free, CostTier, cloud_free,
  cloud_paid_low, cloud_eligible,
}
use softos_sdd_orchestrator.AgentResources.Availability.{
  text as text_evidence, state_named, normalize_availability,
}
use softos_sdd_orchestrator.AgentResources.Selection.{
  Demand, is_subset, is_admitted, filter_resources_for_selection, priority_of, rank_leb,
  order_resource_candidates, preferred_order_for_work_class, choose, select_resource_candidates,
}
use softos_sdd_orchestrator.AgentRoles.Context.{
  orchestrator, worker, reviewer, AgentRoleContext, elevation, text_of, normalize_role_context,
  resolve_invocation_role,
}
use softos_sdd_orchestrator.AgentRoles.Nested.{
  IsContext, nested_parent, normalize_role_context-IsContext, resolve_invocation_role_nested,
}
use softos_sdd_orchestrator.AgentRoles.Executors.{
  orchestrator_executor_priority, first_ready, select_orchestrator_executor, Selects,
  select_orchestrator_executor_outcome,
}
use softos_sdd_orchestrator.AgentRoles.Reviewers.{
  implementer_of, own_resources, implementer_cost_tiers, identity_resources, filtered_reason,
  filtered_out, has_tier, same_family, reason_parts, first_three, joined, reviewed,
  select_reviewer_candidates,
}

program : Unit {0}
unfolding is_space lstrip rstrip strip match_char lower_char lower upper_char upper text_leb concat
    insert_sorted sort stripped filter lookup sorted_items state_named normalize_availability
    is_subset is_admitted filter_resources_for_selection priority_of rank_leb
    order_resource_candidates preferred_order_for_work_class choose select_resource_candidates
    normalize_role_context resolve_invocation_role first_ready select_orchestrator_executor
    implementer_of own_resources implementer_cost_tiers identity_resources filtered_reason
    filtered_out has_tier same_family reason_parts first_three joined reviewed
    select_reviewer_candidates
program = tt

abbrev child : AgentRoleContext
child = record {
  role = worker;
  run_id = "run-1:child:0123456789ab";
  parent_run_id = some "run-1";
  handoff_ref = some "handoff.md";
}

child_resolved :
    resolve_invocation_role none none none (some "handoff.md") (some " run-1 ") "0123456789ab"
    ≡ ok child
unfolding program
child_resolved = refl

elevation_refused :
    resolve_invocation_role
      (some " Orchestrator")
      (some "r")
      none
      none
      (some "run-1")
      "0123456789ab"
    ≡ err elevation
unfolding program
elevation_refused = refl

inside : (strip (text_of (some " run-1 ")) == "") ≡ false
unfolding program
inside = refl

resolve_invocation_role_nested_example :
    IsContext child
    × (worker ≢ orchestrator)
    × (some "run-1" ≡ nested_parent (strip (text_of (some " run-1 "))) none)
resolve_invocation_role_nested_example =
    resolve_invocation_role_nested none none none (some "handoff.md") (some " run-1 ")
      "0123456789ab" child inside child_resolved

abbrev review_context : AgentRoleContext
review_context = record {
  role = reviewer;
  run_id = "r2";
  parent_run_id = some "r1";
  handoff_ref = some "notes";
}

review_normalized :
    normalize_role_context (some "REVIEWER") (some "r2") (some "r1 ") (some "notes")
    ≡ ok review_context
unfolding program
review_normalized = refl

normalize_role_context-IsContext_example : IsContext review_context
normalize_role_context-IsContext_example =
    normalize_role_context-IsContext (some "REVIEWER") (some "r2") (some "r1 ") (some "notes")
      review_context review_normalized

abbrev executor : String → Adapter → AgentExecutor
executor id adapter = record {
  executor_id = id;
  adapter = adapter;
  executable = id;
  argv = [];
  transport = cli;
  allow_cli_fallback = false;
  permission_policy = reject;
  acp_executable = none;
  acp_argv = [];
  acp_auth_method = none;
}

abbrev executors : Dict AgentExecutor
executors = ("codex", executor "codex" codex) ∷ ("cursor", executor "cursor" cursor) ∷ []

abbrev status : String → String
status executable = if executable == "cursor" then "ready" else "missing"

cursor_selected :
    select_orchestrator_executor executors status orchestrator_executor_priority
    ≡ ok (record {
      chosen = executor "cursor" cursor;
      selected = "cursor";
      candidates =
          record { id = "codex"; executor = some "codex"; status = "missing" }
          ∷ record { id = "cursor"; executor = some "cursor"; status = "ready" }
          ∷ [];
    })
unfolding program
cursor_selected = refl

select_orchestrator_executor_outcome_example :
    Selects executors status orchestrator_executor_priority
      (select_orchestrator_executor executors status orchestrator_executor_priority)
select_orchestrator_executor_outcome_example =
    select_orchestrator_executor_outcome executors status orchestrator_executor_priority

abbrev resource : String → String → CostTier → ModelResolution → AgentResource
resource resource_id executor_id tier resolution = record {
  resource_id = resource_id;
  executor_id = executor_id;
  capabilities = "code" ∷ [];
  capacity = 1;
  cost_tier = tier;
  selection_priority = pos 10;
  model_resolution = resolution;
  data_sensitivity = cloud_eligible;
}

abbrev resources : Dict AgentResource
resources =
    ("codex", resource "codex" "codex" cloud_paid_low wrapper_profile)
    ∷ ("cursor", resource "cursor" "cursor" cloud_paid_low wrapper_profile)
    ∷ ("opencode-free", resource "opencode-free" "opencode" cloud_free dynamic_free)
    ∷ []

abbrev demand : Demand
demand = record {
  availability =
      ("codex", text_evidence "AVAILABLE")
      ∷ ("cursor", text_evidence "AVAILABLE")
      ∷ ("opencode-free", text_evidence "AVAILABLE")
      ∷ [];
  required_capabilities = [];
  data_sensitivity = none;
}

free_reviews :
    select_reviewer_candidates resources demand "codex" "wrapper_profile"
      ("codex" ∷ "cursor" ∷ "opencode-free" ∷ [])
    ≡ ok (record {
      candidates = "opencode-free" ∷ [];
      selected = "opencode-free";
      selection_reason =
          "excluded codex (same_executor_as_implementer); excluded cursor (same_model_resolution_as_implementer)";
      excluded =
          record { id = "codex"; reason = "same_executor_as_implementer" }
          ∷ record { id = "cursor"; reason = "same_model_resolution_as_implementer" }
          ∷ [];
    })
unfolding program
free_reviews = refl
