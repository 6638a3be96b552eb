-- ===== src/AgentResources/Availability.antt =====
-- `normalize_availability`, `is_selectable_availability` and `default_availability_for_resource`.
use softos_sdd_orchestrator.Prelude.{
  String, Bool, true, false, Option, none, some, List, [], ◌∷◌, ◌==◌, if◌then◌else◌,
}
use softos_sdd_orchestrator.Prelude.Strip.{strip}
use softos_sdd_orchestrator.Prelude.Upper.{upper}
use softos_sdd_orchestrator.AgentResources.Data.{
  Availability, available, unknown, auth_unconfigured, availability_text, availability_states,
  ModelResolution, dynamic_go, AgentResource,
}

-- What may be given as evidence: None, bytes with their UTF-8 text if they have one, a text, or a
-- value of another type.
pub data Evidence : Type 0 where
  absent : Evidence
  bytes : Option String → Evidence
  text : String → Evidence
  other : Evidence

unfoldable pub state_named : String → List Availability → Availability
state_named name [] = unknown
state_named name (state ∷ states) =
    let rest = state_named name states in if availability_text state == name then state else rest

-- A text that is blank after the strip is the name of no state.
unfoldable pub normalize_availability : Evidence → Availability
unfolding state_named
normalize_availability absent = unknown
normalize_availability (bytes none) = unknown
normalize_availability (bytes (some s)) = state_named (upper (strip s)) availability_states
normalize_availability (text s) = state_named (upper (strip s)) availability_states
normalize_availability other = unknown

abbrev pub is_available : Availability → Bool
is_available available = true
is_available _ = false

unfoldable pub is_selectable_availability : Evidence → Bool
unfolding normalize_availability
is_selectable_availability evidence = is_available (normalize_availability evidence)

abbrev pub availability_for : ModelResolution → (evidence auth_evidence : Evidence) → Availability
availability_for dynamic_go evidence absent = auth_unconfigured
availability_for dynamic_go evidence auth_evidence = normalize_availability auth_evidence
availability_for resolution evidence auth_evidence = normalize_availability evidence

unfoldable pub default_availability_for_resource :
    AgentResource → (evidence auth_evidence : Evidence) → Availability
unfolding normalize_availability
default_availability_for_resource resource evidence auth_evidence =
    availability_for resource.model_resolution evidence auth_evidence
