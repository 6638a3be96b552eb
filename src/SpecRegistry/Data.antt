-- ===== src/SpecRegistry/Data.antt =====
-- The tables of the registry, and the errors.
use softos_sdd_orchestrator.Prelude.{
  ℕ, String, Bool, false, not, Option, none, some, List, [], ◌==◌, if◌then◌else◌,
}

-- REGISTRY_STATES
pub data RegistryState : Type 0 where
  new triaged in_edit in_review approved in_execution in_validation done closed : RegistryState

-- REGISTRY_STATE_INDEX
abbrev pub index : RegistryState → ℕ
index new = 0
index triaged = 1
index in_edit = 2
index in_review = 3
index approved = 4
index in_execution = 5
index in_validation = 6
index done = 7
index closed = 8

abbrev pub state_text : RegistryState → String
state_text new = "new"
state_text triaged = "triaged"
state_text in_edit = "in_edit"
state_text in_review = "in_review"
state_text approved = "approved"
state_text in_execution = "in_execution"
state_text in_validation = "in_validation"
state_text done = "done"
state_text closed = "closed"

-- The state of a text that is a key of REGISTRY_STATE_INDEX.
unfoldable pub registry_state : String → Option RegistryState
registry_state text =
    if text == "new"
    then some new
    else if text == "triaged"
    then some triaged
    else if text == "in_edit"
    then some in_edit
    else if text == "in_review"
    then some in_review
    else if text == "approved"
    then some approved
    else if text == "in_execution"
    then some in_execution
    else if text == "in_validation"
    then some in_validation
    else if text == "done"
    then some done
    else if text == "closed"
    then some closed
    else none

-- A row of `spec_registry`.
pub record Spec : Type 0 where
  pub spec_id : String
  pub state : RegistryState
  pub assignee : Option String
  pub lock_token : Option String
  pub lock_expires_at : Option ℕ
  pub created_at : ℕ
  pub updated_at : ℕ

-- A row of `spec_registry_audit`; its id is its place in the list.
pub record AuditEntry : Type 0 where
  pub spec_id : String
  pub event : String
  pub from_state : Option RegistryState
  pub to_state : Option RegistryState
  pub actor : String
  pub reason : String
  pub source : String
  pub timestamp : ℕ

pub record Registry : Type 0 where
  pub specs : List Spec
  pub audit : List AuditEntry

-- `SpecRegistryError` by its code, and the `KeyError` of `get_spec`.
pub data SpecRegistryError : Type 0 where
  spec_already_claimed invalid_reassign reassign_reason_required : SpecRegistryError
  reassign_force_forbidden reassign_forbidden registry_write_failed spec_not_found :
      SpecRegistryError
  lock_required lock_mismatch invalid_ttl : SpecRegistryError
  invalid_reassign_role : String → SpecRegistryError
  invalid_target : String → SpecRegistryError
  invalid_transition : (from to : RegistryState) → SpecRegistryError
  key_error : String → SpecRegistryError

-- The HTTP status of each; `get_spec`'s KeyError has none of its own.
unfoldable pub status_code : SpecRegistryError → Option ℕ
status_code spec_already_claimed = some 409
status_code invalid_reassign = some 400
status_code reassign_reason_required = some 400
status_code reassign_force_forbidden = some 403
status_code reassign_forbidden = some 403
status_code registry_write_failed = some 500
status_code spec_not_found = some 404
status_code lock_required = some 409
status_code lock_mismatch = some 409
status_code invalid_ttl = some 400
status_code (invalid_reassign_role role) = some 400
status_code (invalid_target state) = some 400
status_code (invalid_transition from to) = some 400
status_code (key_error spec_id) = none

-- The readings of the clock in one call, by the place that takes them.
pub record Clock : Type 0 where
  pub created : ℕ
  pub created_audit : ℕ
  pub checked : ℕ
  pub expired : ℕ
  pub expired_audit : ℕ
  pub now : ℕ
  pub lease_from : ℕ
  pub audited : ℕ

abbrev pub spec_id_of : Spec → String
spec_id_of spec = spec.spec_id

abbrev pub no_specs : Registry
no_specs = record { specs = []; audit = [] }

-- The truth of a column that is NULL or a text.
abbrev pub is_set : Option String → Bool
is_set none = false
is_set (some text) = not (text == "")

-- column or ""
abbrev pub or_empty : Option String → String
or_empty none = ""
or_empty (some text) = text
