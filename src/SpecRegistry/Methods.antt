-- ===== src/SpecRegistry/Methods.antt =====
-- The methods of the registry. The part under BEGIN IMMEDIATE is a body for `transaction`; the
-- answer is a `get_spec` on the database as it is then.
use softos_sdd_orchestrator.Prelude.{
  ℕ, ◌+◌, String, Bool, true, false, Option, none, some, List, [], ◌∷◌, ◌&&◌, ◌||◌, not, ◌==◌,
  nat_eq, ltb, if◌then◌else◌,
}
use softos_sdd_orchestrator.Prelude.Int.{ℤ}
use softos_sdd_orchestrator.Prelude.Result.{Result, ok, err, ◌>>=◌, ◌>>◌}
use softos_sdd_orchestrator.Prelude.Text.{concat, or_default, text_leb}
use softos_sdd_orchestrator.Prelude.Sort.{sort}
use softos_sdd_orchestrator.Prelude.Strip.{strip, lower}
use softos_sdd_orchestrator.Table.{select_where}
use softos_sdd_orchestrator.Table.Transaction.{transaction}
use softos_sdd_orchestrator.SpecRegistry.Data.{
  RegistryState, index, in_edit, in_execution, registry_state, state_text, Spec, AuditEntry,
  Registry, Clock, SpecRegistryError, spec_already_claimed, invalid_reassign,
  reassign_reason_required, reassign_force_forbidden, reassign_forbidden, invalid_reassign_role,
  invalid_target, invalid_transition, key_error, is_set,
}
use softos_sdd_orchestrator.SpecRegistry.Helpers.{
  append_audit, update_spec, find_spec, get_or_create_spec, must_get_spec, unlocked,
  same_state_entry, expire_lock_if_needed, require_lock_owner, normalized_ttl,
}

-- get_spec: the row and its audit entries, or KeyError.
unfoldable pub get_spec : String → Registry → Result SpecRegistryError (Spec × List AuditEntry)
get_spec spec_id registry = elim (find_spec spec_id registry) [
  | none ↦ err (key_error spec_id)
  | some spec ↦ ok (spec, select_where (λ entry. entry.spec_id == spec_id) registry.audit)
]

abbrev pub Body : Type 0
Body = Registry → Result SpecRegistryError (Unit {0} × Registry)

abbrev pub Answer : Type 0
Answer = Result SpecRegistryError (Spec × List AuditEntry) × Registry

-- The transaction, then the answer.
unfoldable pub respond : String → Body → Registry → Answer
respond spec_id body registry =
    let (result, after) = transaction body registry in
    (result >>= (λ _. get_spec spec_id after), after)

-- A method that checks its arguments before it opens the database.
abbrev pub checked :
    {X : Type 0} → Result SpecRegistryError X → String → (X → Body) → Registry → Answer
checked (ok x) spec_id body registry = respond spec_id (body x) registry
checked (err e) spec_id body registry = (err e, registry)

-- What the methods do with the record, once they have it and its lock has been expired.
unfoldable pub claim_record :
    Clock
    → String
    → String
    → String
    → String
    → String
    → ℕ
    → Spec × Registry
    → Result SpecRegistryError (Unit {0} × Registry)
claim_record clock spec_id actor source reason token ttl (spec, registry) =
    if is_set spec.lock_token
    then err spec_already_claimed
    else ok (
      tt,
      append_audit
          (same_state_entry spec_id spec.state "claim" actor (or_default reason "claim") source
            clock.audited)
          (update_spec spec_id
            (λ s. record s {
              assignee = some actor;
              lock_token = some token;
              lock_expires_at = some (clock.lease_from + ttl);
              updated_at = clock.now;
            })
            registry),
    )

unfoldable pub claim_body : Clock → String → String → String → String → String → ℕ → Body
claim_body clock spec_id actor source reason token ttl registry =
    get_or_create_spec clock spec_id registry >>= λ (spec, created).
    claim_record clock spec_id actor source reason token ttl
      (expire_lock_if_needed clock source spec created)

unfoldable pub claim_spec :
    Clock → String → String → String → String → ℤ → (token : String) → Registry → Answer
claim_spec clock spec_id actor source reason ttl_seconds token registry =
    checked (normalized_ttl ttl_seconds) spec_id
      (claim_body clock spec_id actor source reason token) registry

-- The record of an existing spec, its lock expired if it has to be, for an action of its owner.
unfoldable pub as_owner :
    Clock
    → String
    → String
    → Option String
    → String
    → (Spec × Registry → Result SpecRegistryError (Unit {0} × Registry))
    → Body
as_owner clock spec_id actor lock_token source action registry = do
  spec ← must_get_spec spec_id registry
  let expired = expire_lock_if_needed clock source spec registry
  require_lock_owner expired.0 actor lock_token
  action expired

unfoldable pub heartbeat_record :
    Clock
    → String
    → String
    → String
    → String
    → ℕ
    → Spec × Registry
    → Result SpecRegistryError (Unit {0} × Registry)
heartbeat_record clock spec_id actor source reason ttl (spec, registry) = ok (
  tt,
  append_audit
      (same_state_entry spec_id spec.state "heartbeat" actor (or_default reason "heartbeat") source
        clock.audited)
      (update_spec spec_id
        (λ s. record s { lock_expires_at = some (clock.lease_from + ttl); updated_at = clock.now })
        registry),
)

unfoldable pub heartbeat_spec :
    Clock → String → String → String → String → String → ℤ → Registry → Answer
heartbeat_spec clock spec_id actor lock_token source reason ttl_seconds registry =
    checked (normalized_ttl ttl_seconds) spec_id
      (λ ttl.
        as_owner clock spec_id actor (some lock_token) source
          (heartbeat_record clock spec_id actor source reason ttl))
      registry

unfoldable pub release_record :
    Clock
    → String
    → String
    → String
    → String
    → Spec × Registry
    → Result SpecRegistryError (Unit {0} × Registry)
release_record clock spec_id actor source reason (spec, registry) = ok (
  tt,
  append_audit
      (same_state_entry spec_id spec.state "release" actor (or_default reason "release") source
        clock.audited)
      (update_spec spec_id (unlocked clock.now) registry),
)

unfoldable pub release_spec : Clock → String → String → String → String → String → Registry → Answer
release_spec clock spec_id actor lock_token source reason registry =
    respond spec_id
      (as_owner clock spec_id actor (some lock_token) source
        (release_record clock spec_id actor source reason))
      registry

unfoldable pub reassign_record :
    Clock
    → String
    → String
    → String
    → String
    → String
    → String
    → ℕ
    → Spec × Registry
    → Result SpecRegistryError (Unit {0} × Registry)
reassign_record clock spec_id actor target source audit_reason new_token ttl (spec, registry) = ok (
  tt,
  append_audit
      (same_state_entry spec_id spec.state "reassign" actor audit_reason source clock.audited)
      (update_spec spec_id
        (λ s. record s {
          assignee = some target;
          lock_token = some new_token;
          lock_expires_at = some (clock.lease_from + ttl);
          updated_at = clock.now;
        })
        registry),
)

-- The checks of `reassign_spec` on its arguments, in their order; the answer is the TTL.
unfoldable pub check_reassign :
    (target role reason : String) → (force : Bool) → ℤ → Result SpecRegistryError ℕ
check_reassign target role reason force ttl_seconds =
    if target == ""
    then err invalid_reassign
    else if not (role == "assignee" || (role == "coordinator" || role == "admin"))
    then err (invalid_reassign_role role)
    else if strip reason == ""
    then err reassign_reason_required
    else if force && not (role == "admin")
    then err reassign_force_forbidden
    else if not (role == "coordinator" || role == "admin")
    then err reassign_forbidden
    else normalized_ttl ttl_seconds

abbrev pub yes_no : Bool → String
yes_no true = "yes"
yes_no false = "no"

unfoldable pub reassign_spec :
    Clock
    → (spec_id actor to_actor lock_token role : String) → (force : Bool) → (source reason : String)
    → ℤ
    → (new_token : String) → Registry
    → Answer
reassign_spec clock spec_id actor to_actor lock_token role force source reason ttl_seconds new_token
      registry =
    let target = strip to_actor in
    let normalized_role = or_default (lower (strip role)) "assignee" in
    checked (check_reassign target normalized_role reason force ttl_seconds) spec_id
      (λ ttl. as_owner clock spec_id actor (some lock_token) source (
        reassign_record clock spec_id actor target source
          (concat
            (strip reason ∷ " [role=" ∷ normalized_role ∷ " force=" ∷ yes_no force ∷ "]" ∷ []))
          new_token ttl))
      registry

-- The states that only the lock's owner may enter.
abbrev pub needs_lock : RegistryState → Bool
needs_lock in_edit = true
needs_lock in_execution = true
needs_lock _ = false

unfoldable pub transition_record :
    Clock
    → String
    → String
    → RegistryState
    → String
    → String
    → Option String
    → Spec × Registry
    → Result SpecRegistryError (Unit {0} × Registry)
transition_record clock spec_id actor to_state source reason lock_token (spec, registry) =
    if not (nat_eq (index to_state) (index spec.state + 1))
    then err (invalid_transition spec.state to_state)
    else (if needs_lock to_state then require_lock_owner spec actor lock_token else ok tt)
      >> ok (
        tt,
        append_audit
            (record (same_state_entry spec_id spec.state "transition" actor
              (or_default reason "transition") source clock.audited) { to_state = some to_state })
            (update_spec spec_id (λ s. record s { state = to_state; updated_at = clock.now })
              registry),
      )

unfoldable pub transition_body :
    Clock → String → String → RegistryState → String → String → Option String → Body
transition_body clock spec_id actor to_state source reason lock_token registry = do
  spec ← must_get_spec spec_id registry
  transition_record clock spec_id actor to_state source reason lock_token
      (expire_lock_if_needed clock source spec registry)

-- The test of the target against REGISTRY_STATE_INDEX.
unfoldable pub target_state : String → Result SpecRegistryError RegistryState
target_state text = elim (registry_state text) [
  | none ↦ err (invalid_target text)
  | some target ↦ ok target
]

unfoldable pub transition_spec :
    Clock → String → String → String → String → String → Option String → Registry → Answer
transition_spec clock spec_id actor to_state source reason lock_token registry =
    checked (target_state (strip to_state)) spec_id
      (λ target. transition_body clock spec_id actor target source reason lock_token) registry

-- The WHERE clause of `list_specs`: an empty filter is none.
abbrev pub matches : Option String → Option String → Bool
matches none column = true
matches (some wanted) column =
    wanted == "" || elim column [ none ↦ false | some text ↦ text == wanted ]

-- ORDER BY updated_at DESC, spec_id ASC
abbrev pub latest_first : Spec → Spec → Bool
latest_first a b =
    ltb b.updated_at a.updated_at
    || nat_eq a.updated_at b.updated_at && text_leb a.spec_id b.spec_id

unfoldable pub list_specs : (state assignee : Option String) → Registry → List Spec
list_specs state assignee registry = sort latest_first (
    select_where
      (λ spec. matches state (some (state_text spec.state)) && matches assignee spec.assignee)
      registry.specs)
