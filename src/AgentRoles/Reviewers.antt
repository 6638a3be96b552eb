-- ===== src/AgentRoles/Reviewers.antt =====
-- `select_reviewer_candidates`.
use softos_sdd_orchestrator.Prelude.{
  String, Bool, true, false, not, ◌&&◌, ◌||◌, Option, none, some, List, [], ◌∷◌, ◌++◌, ◌==◌,
  if◌then◌else◌,
}
use Prim.Native.String.{◌++◌ as ◌followed_by◌}
use softos_sdd_orchestrator.Prelude.Lists.{contains, filter}
use softos_sdd_orchestrator.Prelude.Strip.{strip}
use softos_sdd_orchestrator.Prelude.Sets.{stripped}
use softos_sdd_orchestrator.Prelude.Text.{concat}
use softos_sdd_orchestrator.Prelude.Result.{Result, ok, err, ◌>>=◌, ◌>>◌, ensure}
use softos_sdd_orchestrator.Prelude.Dict.{Dict, lookup, sorted_items}
use softos_sdd_orchestrator.AgentResources.Data.{
  AgentResource, availability_text, ModelResolution, wrapper_profile, worker_profile, dynamic_free,
  dynamic_go, process_override, CostTier, local, cloud_free, cloud_paid_low,
}
use softos_sdd_orchestrator.AgentResources.Availability.{normalize_availability, is_available}
use softos_sdd_orchestrator.AgentResources.Selection.{
  Demand, Choice, SelectionError, or_absent, is_subset, is_local, wants_local,
  select_resource_candidates,
}

abbrev pub resolution_text : ModelResolution → String
resolution_text wrapper_profile = "wrapper_profile"
resolution_text worker_profile = "worker_profile"
resolution_text dynamic_free = "dynamic_free"
resolution_text dynamic_go = "dynamic_go"
resolution_text process_override = "process_override"

pub record Excluded : Type 0 where
  pub id : String
  pub reason : String

-- `AgentRoleError`, by what its messages show, and the error of the resources that passes through.
pub data ReviewError : Type 0 where
  no_implementer : ReviewError
  no_reviewer : (skip_reasons : List Excluded) → ReviewError
  bad_selection : SelectionError → ReviewError

-- Who implements: the ids are stripped.
pub record Implementer : Type 0 where
  pub executor : String
  pub model_resolution : String

unfoldable pub implementer_of :
    (implementer_executor implementer_model_resolution : String) → Implementer
unfolding strip
implementer_of implementer_executor implementer_model_resolution = record {
  executor = strip implementer_executor;
  model_resolution = strip implementer_model_resolution;
}

-- Why a resource is the implementer's own, if it is.
abbrev pub own_reason : Implementer → AgentResource → Option String
own_reason implementer resource =
    if resource.executor_id == implementer.executor
    then some "same_executor_as_implementer"
    else if resolution_text resource.model_resolution == implementer.model_resolution
    then some "same_model_resolution_as_implementer"
    else none

abbrev pub is_other : Implementer → AgentResource → Bool
is_other implementer resource = elim (own_reason implementer resource) [
  | none ↦ true
  | some _ ↦ false
]

-- The first loop: who is excluded, and the cost tiers of those.
unfoldable pub own_resources : Implementer → Dict AgentResource → List Excluded
own_resources implementer [] = []
own_resources implementer ((id, resource) ∷ resources) =
    let rest = own_resources implementer resources in
    elim (own_reason implementer resource) [
      | none ↦ rest
      | some reason ↦ record { id = id; reason = reason } ∷ rest
    ]

unfoldable pub implementer_cost_tiers : Implementer → Dict AgentResource → List CostTier
implementer_cost_tiers implementer [] = []
implementer_cost_tiers implementer ((_, resource) ∷ resources) =
    let rest = implementer_cost_tiers implementer resources in
    if is_other implementer resource then rest else resource.cost_tier ∷ rest

unfoldable pub identity_resources : Implementer → Dict AgentResource → Dict AgentResource
unfolding sorted_items
identity_resources implementer resources =
    filter (λ item. is_other implementer item.1) (sorted_items resources)

-- The second loop: why another resource is not among those that the filter admits.
unfoldable pub filtered_reason : Demand → String → AgentResource → String
unfolding normalize_availability stripped is_subset concat
filtered_reason demand resource_id resource =
    let state = normalize_availability (or_absent (lookup resource_id demand.availability)) in
    if not (is_available state)
    then concat ("availability:" ∷ availability_text state ∷ [])
    else if not (is_subset (stripped demand.required_capabilities) resource.capabilities)
    then "missing_required_capabilities"
    else if wants_local demand.data_sensitivity && not (is_local resource.data_sensitivity)
    then "data_sensitivity_mismatch"
    else "filtered_out"

unfoldable pub filtered_out : Demand → List String → Dict AgentResource → List Excluded
unfolding filtered_reason
filtered_out demand filtered [] = []
filtered_out demand filtered ((id, resource) ∷ resources) =
    let rest = filtered_out demand filtered resources in
    if contains id filtered
    then rest
    else record { id = id; reason = filtered_reason demand id resource } ∷ rest

abbrev pub tier_eq : CostTier → CostTier → Bool
tier_eq local local = true
tier_eq cloud_free cloud_free = true
tier_eq cloud_paid_low cloud_paid_low = true
tier_eq _ _ = false

unfoldable pub has_tier : CostTier → List CostTier → Bool
has_tier tier [] = false
has_tier tier (t ∷ tiers) = tier_eq t tier || has_tier tier tiers

-- Whether the cost tier of a resource is one of the implementer's.
unfoldable pub same_family : Dict AgentResource → List CostTier → String → Bool
unfolding has_tier lookup
same_family resources tiers resource_id = elim (lookup resource_id resources) [
  | none ↦ false
  | some resource ↦ has_tier resource.cost_tier tiers
]

abbrev pub by_family : Dict AgentResource → List CostTier → List String → List String
by_family resources [] ordered = ordered
by_family resources tiers ordered =
    filter (λ k. not (same_family resources tiers k)) ordered
    ++ filter (same_family resources tiers) ordered

-- The payload of the selection.
pub record Review : Type 0 where
  pub candidates : List String
  pub selected : String
  pub selection_reason : String
  pub excluded : List Excluded

-- The first three exclusions, separated by semicolons.
unfoldable pub reason_parts : List Excluded → List String
reason_parts [] = []
reason_parts (e ∷ es) = concat ("excluded " ∷ e.id ∷ " (" ∷ e.reason ∷ ")" ∷ []) ∷ reason_parts es

unfoldable pub first_three : List Excluded → List Excluded
first_three (a ∷ b ∷ c ∷ _) = a ∷ b ∷ c ∷ []
first_three es = es

-- "; ".join(parts)
unfoldable pub joined : List String → String
joined [] = ""
joined (part ∷ []) = part
joined (part ∷ parts) = part followed_by "; " followed_by joined parts

abbrev pub reason_of : List String → String
reason_of [] = "independent candidate after implementer exclusion"
reason_of parts = joined parts

abbrev pub review_of : List Excluded → List String → Result ReviewError Review
review_of excluded [] = err (no_reviewer excluded)
review_of excluded (selected ∷ others) = ok (record {
  candidates = selected ∷ others;
  selected = selected;
  selection_reason = reason_of (reason_parts (first_three excluded));
  excluded = excluded;
})

abbrev pub selection_of : Result SelectionError Choice → Result ReviewError Choice
selection_of (ok choice) = ok choice
selection_of (err e) = err (bad_selection e)

unfoldable pub reviewed :
    Dict AgentResource → Demand → Implementer → Choice → Result ReviewError Review
unfolding own_resources implementer_cost_tiers identity_resources filtered_out same_family joined
    reason_parts first_three sorted_items
reviewed resources demand implementer choice =
    review_of
      (own_resources implementer (sorted_items resources)
        ++ filtered_out demand choice.filtered (identity_resources implementer resources))
      (by_family resources (implementer_cost_tiers implementer (sorted_items resources))
        choice.candidates)

unfoldable pub select_reviewer_candidates :
    Dict AgentResource
    → Demand
    → (implementer_executor implementer_model_resolution : String) → List String
    → Result ReviewError Review
unfolding strip implementer_of identity_resources select_resource_candidates reviewed
select_reviewer_candidates resources demand implementer_executor implementer_model_resolution
      preferred_order =
    do
      let implementer = implementer_of implementer_executor implementer_model_resolution
      ensure (not (strip implementer_executor == "" || strip implementer_model_resolution == ""))
          no_implementer
      choice ← selection_of (
          select_resource_candidates (identity_resources implementer resources) demand
            "independent_review" (some preferred_order))
      reviewed resources demand implementer choice
