-- ===== src/AgentResources/Selection.antt =====
-- `filter_resources_for_selection`, `order_resource_candidates` and `select_resource_candidates`.
use softos_sdd_orchestrator.Prelude.{
  String, Bool, true, false, not, ◌&&◌, Option, none, some, List, [], ◌∷◌, ◌++◌, ◌==◌,
  if◌then◌else◌,
}
use softos_sdd_orchestrator.Prelude.Int.{ℤ, pos, int_leb, int_eq}
use softos_sdd_orchestrator.Prelude.Lists.{contains, filter}
use softos_sdd_orchestrator.Prelude.Text.{text_leb}
use softos_sdd_orchestrator.Prelude.Strip.{strip, lower}
use softos_sdd_orchestrator.Prelude.Sets.{stripped}
use softos_sdd_orchestrator.Prelude.Sort.{sort}
use softos_sdd_orchestrator.Prelude.Order.{head?}
use softos_sdd_orchestrator.Prelude.Dict.{Dict, lookup, is_key, keys, sorted_items}
use softos_sdd_orchestrator.Prelude.Result.{Result, ok, err}
use softos_sdd_orchestrator.AgentResources.Data.{
  AgentResource, DataSensitivity, local_only, cloud_eligible, WorkClass, work_class,
  preferred_order_of,
}
use softos_sdd_orchestrator.AgentResources.Availability.{
  Evidence, absent, normalize_availability, is_available,
}

abbrev pub or_absent : Option Evidence → Evidence
or_absent none = absent
or_absent (some evidence) = evidence

-- set(xs).issubset(ys)
unfoldable pub is_subset : List String → List String → Bool
is_subset [] ys = true
is_subset (x ∷ xs) ys = contains x ys && is_subset xs ys

abbrev pub is_local : DataSensitivity → Bool
is_local local_only = true
is_local cloud_eligible = false

abbrev pub wants_local : Option String → Bool
wants_local none = false
wants_local (some sensitivity) = sensitivity == "local-only"

-- What a selection asks for: the evidence of each resource, and the requirements.
pub record Demand : Type 0 where
  pub availability : Dict Evidence
  pub required_capabilities : List String
  pub data_sensitivity : Option String

-- The three tests of the filter.
unfoldable pub is_admitted : Demand → String → AgentResource → Bool
unfolding normalize_availability stripped is_subset
is_admitted demand resource_id resource =
    is_available (normalize_availability (or_absent (lookup resource_id demand.availability)))
    && is_subset (stripped demand.required_capabilities) resource.capabilities
    && not (wants_local demand.data_sensitivity && not (is_local resource.data_sensitivity))

unfoldable pub filter_resources_for_selection : Dict AgentResource → Demand → List String
unfolding is_admitted
filter_resources_for_selection resources demand =
    keys (filter (λ item. is_admitted demand item.0 item.1) (sorted_items resources))

-- resources[resource_id].selection_priority, for an id that is a key
unfoldable pub priority_of : Dict AgentResource → String → ℤ
priority_of resources resource_id = elim (lookup resource_id resources) [
  | none ↦ pos 0
  | some resource ↦ resource.selection_priority
]

-- The order of the tuples of priority and id.
unfoldable pub rank_leb : Dict AgentResource → String → String → Bool
unfolding priority_of
rank_leb resources a b =
    if int_eq (priority_of resources a) (priority_of resources b)
    then text_leb a b
    else int_leb (priority_of resources a) (priority_of resources b)

abbrev pub ordered_by : Dict AgentResource → List String → Option (List String) → List String
ordered_by resources present none = sort (rank_leb resources) present
ordered_by resources present (some order) =
    let preferred = filter (λ resource_id. contains resource_id present) order in
    preferred
    ++ sort (rank_leb resources)
        (filter (λ resource_id. not (contains resource_id preferred)) present)

unfoldable pub order_resource_candidates :
    List String → Dict AgentResource → Option (List String) → List String
unfolding rank_leb
order_resource_candidates candidate_ids resources preferred_order =
    ordered_by resources (filter (λ resource_id. is_key resource_id resources) candidate_ids)
      preferred_order

-- `AgentResourceError`, by what its message shows.
pub data SelectionError : Type 0 where
  unknown_work_class : (work_class : String) → SelectionError

abbrev pub chain_for : String → Option WorkClass → Result SelectionError (List String)
chain_for text none = err (unknown_work_class text)
chain_for text (some class) = ok (preferred_order_of class)

unfoldable pub preferred_order_for_work_class : String → Result SelectionError (List String)
preferred_order_for_work_class text = chain_for text (work_class (lower (strip text)))

-- The payload of a selection.
pub record Choice : Type 0 where
  pub work_class : String
  pub candidates : List String
  pub selected : Option String
  pub preferred_order : List String
  pub filtered : List String

unfoldable pub choose : Dict AgentResource → Demand → String → List String → Choice
unfolding filter_resources_for_selection order_resource_candidates
choose resources demand text order =
    let filtered = filter_resources_for_selection resources demand in
    let candidates = order_resource_candidates filtered resources (some order) in
    record {
      work_class = lower (strip text);
      candidates = candidates;
      selected = head? candidates;
      preferred_order = order;
      filtered = filtered;
    }

abbrev pub choose_by :
    Dict AgentResource
    → Demand
    → String
    → Result SelectionError (List String)
    → Result SelectionError Choice
choose_by resources demand text (err e) = err e
choose_by resources demand text (ok order) = ok (choose resources demand text order)

abbrev pub resolved_order : String → Option (List String) → Result SelectionError (List String)
resolved_order text none = preferred_order_for_work_class text
resolved_order text (some order) = ok (stripped order)

unfoldable pub select_resource_candidates :
    Dict AgentResource
    → Demand
    → (work_class : String) → Option (List String)
    → Result SelectionError Choice
unfolding preferred_order_for_work_class choose
select_resource_candidates resources demand text preferred_order =
    choose_by resources demand text (resolved_order text preferred_order)
