-- ===== src/AgentResources/Models.antt =====
-- `resolve_free_model` and `resolve_go_model`: what discovery and its exceptions give are arguments.
use softos_sdd_orchestrator.Prelude.{
  String, Bool, not, ◌&&◌, ◌||◌, Option, none, some, List, [], ◌∷◌, ◌==◌, if◌then◌else◌,
}
use text.Mathlib.Text.{starts_with}
use Prim.Native.String.{◌++◌ as ◌followed_by◌}
use softos_sdd_orchestrator.Prelude.Result.{Result, ok, err}
use softos_sdd_orchestrator.Prelude.Strip.{strip}
use softos_sdd_orchestrator.Prelude.Sets.{sorted_set}
use softos_sdd_orchestrator.Prelude.Order.{head?}
use softos_sdd_orchestrator.AgentResources.Data.{
  Availability, available, unknown, auth_unconfigured, model_unavailable,
}
use softos_sdd_orchestrator.AgentResources.Availability.{Evidence, absent, normalize_availability}

-- What a call from outside gives: its value, or the class of the exception it raises.
pub data Outcome (A : Type 0) : Type 0 where
  returned : A → Outcome A
  raised : (class_name : String) → Outcome A

-- Each item that is discovered is a text, or a value of another type.
abbrev pub Discovery : Type 0
Discovery = Outcome (List (Option String))

pub record ModelResolutionResult : Type 0 where
  pub availability : Availability
  pub model_id : Option String
  pub reason : Option String

-- `AgentResourceError`, by what its message shows.
pub data ModelError : Type 0 where
  bad_tie_break : (tie_break : String) → ModelError

unfoldable pub ends_with : String → String → Bool
ends_with String.[] suffix = suffix == ""
ends_with (String.◌∷◌ c s) suffix =
    let rest = ends_with s suffix in String.◌∷◌ c s == suffix || rest

unfoldable pub is_free : String → Bool
unfolding ends_with
is_free model_id = ends_with model_id "-free" && not (starts_with model_id "opencode-go/")

abbrev pub is_named : String → Bool
is_named model_id = not (model_id == "")

-- The loop over the discovered items.
unfoldable pub candidates : (String → Bool) → List (Option String) → List String
candidates eligible [] = []
candidates eligible (none ∷ items) = candidates eligible items
candidates eligible (some item ∷ items) =
    let rest = candidates eligible items in
    if eligible (strip item) then strip item ∷ rest else rest

unfoldable pub lexical_first : List String → ModelResolutionResult
unfolding sorted_set
lexical_first [] = record {
  availability = model_unavailable;
  model_id = none;
  reason = some "MODEL_UNAVAILABLE";
}
lexical_first (model_id ∷ model_ids) = record {
  availability = available;
  model_id = head? (sorted_set (model_id ∷ model_ids));
  reason = none;
}

abbrev pub unresolved : Availability → String → ModelResolutionResult
unresolved state reason = record { availability = state; model_id = none; reason = some reason }

abbrev pub from_discovery : (String → Bool) → Discovery → ModelResolutionResult
from_discovery eligible (returned discovered) = lexical_first (candidates eligible discovered)
from_discovery eligible (raised class_name) =
    unresolved unknown ("discovery_error:" followed_by class_name)

abbrev pub with_tie_break : String → ModelResolutionResult → Result ModelError ModelResolutionResult
with_tie_break tie_break result =
    if tie_break == "lexical" then ok result else err (bad_tie_break tie_break)

unfoldable pub resolve_free_model :
    Discovery → (tie_break : String) → Result ModelError ModelResolutionResult
unfolding is_free candidates lexical_first
resolve_free_model discovery tie_break = with_tie_break tie_break (from_discovery is_free discovery)

-- Go from the state of the authorization to discovery.
abbrev pub go_model : Discovery → String → Availability → Result ModelError ModelResolutionResult
go_model discovery tie_break auth_unconfigured =
    ok (unresolved auth_unconfigured "auth_unconfigured")
go_model discovery tie_break available =
    with_tie_break tie_break (from_discovery is_named discovery)
go_model discovery tie_break state = ok (unresolved state "auth_not_available")

abbrev pub auth_state : Evidence → Availability
auth_state absent = auth_unconfigured
auth_state evidence = normalize_availability evidence

-- `auth_discover` is asked only without evidence.
abbrev pub auth_outcome : Evidence → Option (Outcome Evidence) → Outcome Evidence
auth_outcome absent (some outcome) = outcome
auth_outcome evidence _ = returned evidence

abbrev pub go_with : Discovery → String → Outcome Evidence → Result ModelError ModelResolutionResult
go_with discovery tie_break (raised class_name) =
    ok (unresolved unknown ("auth_discovery_error:" followed_by class_name))
go_with discovery tie_break (returned evidence) = go_model discovery tie_break (auth_state evidence)

unfoldable pub resolve_go_model :
    Discovery
    → Evidence
    → Option (Outcome Evidence)
    → (tie_break : String) → Result ModelError ModelResolutionResult
unfolding candidates lexical_first normalize_availability
resolve_go_model discovery auth_evidence auth_discover tie_break =
    go_with discovery tie_break (auth_outcome auth_evidence auth_discover)
