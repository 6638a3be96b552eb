-- ===== src/SpecRegistry/Helpers.antt =====
-- The helpers that the methods of the registry call on an open connection.
use softos_sdd_orchestrator.Prelude.{
  ℕ, String, Bool, false, Option, none, some, ◌&&◌, ◌||◌, not, ◌==◌, leb, ltb, if◌then◌else◌,
}
use softos_sdd_orchestrator.Prelude.Int.{ℤ, pos, negsuc}
use softos_sdd_orchestrator.Prelude.Result.{Result, ok, err}
use softos_sdd_orchestrator.Table.{insert, select, update}
use softos_sdd_orchestrator.SpecRegistry.Data.{
  RegistryState, new, Spec, AuditEntry, Registry, Clock, SpecRegistryError, registry_write_failed,
  spec_not_found, lock_required, lock_mismatch, invalid_ttl, spec_id_of, is_set, or_empty,
}

-- _append_audit_locked
unfoldable pub append_audit : AuditEntry → Registry → Registry
append_audit entry registry = record registry { audit = insert entry registry.audit }

-- UPDATE spec_registry SET ... WHERE spec_id = ?
unfoldable pub update_spec : String → (Spec → Spec) → Registry → Registry
update_spec spec_id f registry = record registry {
  specs = update spec_id_of spec_id f registry.specs;
}

-- SELECT * FROM spec_registry WHERE spec_id = ?
unfoldable pub find_spec : String → Registry → Option Spec
find_spec spec_id registry = select spec_id_of spec_id registry.specs

abbrev pub new_spec : String → ℕ → Spec
new_spec spec_id now = record {
  spec_id = spec_id;
  state = new;
  assignee = none;
  lock_token = none;
  lock_expires_at = none;
  created_at = now;
  updated_at = now;
}

abbrev pub created_entry : String → ℕ → AuditEntry
created_entry spec_id timestamp = record {
  spec_id = spec_id;
  event = "created";
  from_state = none;
  to_state = some new;
  actor = "system";
  reason = "auto-create";
  source = "gateway";
  timestamp = timestamp;
}

-- _get_or_create_spec_locked
unfoldable pub get_or_create_spec :
    Clock → String → Registry → Result SpecRegistryError (Spec × Registry)
get_or_create_spec clock spec_id registry = elim (find_spec spec_id registry) [
  | some spec ↦ ok (spec, registry)
  | none ↦
      let created : Registry =
        append_audit (created_entry spec_id clock.created_audit)
          (record registry { specs = insert (new_spec spec_id clock.created) registry.specs }) in
      elim (find_spec spec_id created) [
        | some spec ↦ ok (spec, created)
        | none ↦ err registry_write_failed
      ]
]

-- _must_get_spec_locked
unfoldable pub must_get_spec : String → Registry → Result SpecRegistryError Spec
must_get_spec spec_id registry = elim (find_spec spec_id registry) [
  | some spec ↦ ok spec
  | none ↦ err spec_not_found
]

-- assignee = NULL, lock_token = NULL, lock_expires_at = NULL
abbrev pub unlocked : ℕ → Spec → Spec
unlocked now spec = record spec {
  assignee = none;
  lock_token = none;
  lock_expires_at = none;
  updated_at = now;
}

-- An audit entry of an event that keeps the state.
abbrev pub same_state_entry :
    String → RegistryState → String → String → String → String → ℕ → AuditEntry
same_state_entry spec_id state event actor reason source timestamp = record {
  spec_id = spec_id;
  event = event;
  from_state = some state;
  to_state = some state;
  actor = actor;
  reason = reason;
  source = source;
  timestamp = timestamp;
}

-- The test of `_expire_lock_if_needed_locked`.
unfoldable pub is_expired : ℕ → Spec → Bool
is_expired now spec = elim spec.lock_expires_at [
  | none ↦ false
  | some expires ↦ is_set spec.lock_token && leb expires now
]

-- _expire_lock_if_needed_locked: the record as it stands afterwards, and the registry.
unfoldable pub expire_lock_if_needed : Clock → String → Spec → Registry → Spec × Registry
expire_lock_if_needed clock source spec registry =
    if is_expired clock.checked spec
    then (
      record spec { assignee = none; lock_token = none; lock_expires_at = none },
      append_audit
          (same_state_entry spec.spec_id spec.state "lock_expired" "system" "ttl-expired" source
            clock.expired_audit)
          (update_spec spec.spec_id (unlocked clock.expired) registry),
    )
    else (spec, registry)

-- _require_lock_owner
unfoldable pub require_lock_owner :
    Spec → String → Option String → Result SpecRegistryError (Unit {0})
require_lock_owner spec actor lock_token =
    if not (is_set spec.lock_token)
    then err lock_required
    else if not (or_empty spec.assignee == actor)
        || not (or_empty spec.lock_token == or_empty lock_token)
    then err lock_mismatch
    else ok tt

-- _normalized_ttl
unfoldable pub normalized_ttl : ℤ → Result SpecRegistryError ℕ
normalized_ttl (pos ttl) = if ltb ttl 5 || ltb 3600 ttl then err invalid_ttl else ok ttl
normalized_ttl (negsuc n) = err invalid_ttl
