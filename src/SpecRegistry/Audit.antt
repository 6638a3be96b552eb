-- ===== src/SpecRegistry/Audit.antt =====
-- Every method keeps the audit a history of the rows.
use softos_sdd_orchestrator.Prelude.{
  ℕ, ◌+◌, String, ◌≡◌, refl, ap, inl, inr, Option, some, true, List, [], ◌∷◌, arith, if◌then◌else◌,
  Bool-cases, nat_eq, nat_eq→eq,
}
use softos_sdd_orchestrator.Prelude.Result.{Result, ok, err}
use softos_sdd_orchestrator.Prelude.Strip.{strip}
use softos_sdd_orchestrator.Table.Transaction.{
  transaction_rule, OnCommit, commit, rollback, OnCommit-bind,
}
use softos_sdd_orchestrator.SpecRegistry.Data.{
  RegistryState, index, Spec, Registry, Clock, SpecRegistryError, is_set,
}
use softos_sdd_orchestrator.SpecRegistry.Helpers.{must_get_spec, require_lock_owner, normalized_ttl}
use softos_sdd_orchestrator.SpecRegistry.Methods.{
  Body, respond, checked, claim_record, claim_body, claim_spec, as_owner, heartbeat_record,
  heartbeat_spec, release_record, release_spec, reassign_record, reassign_spec, transition_record,
  transition_body, transition_spec, target_state, needs_lock,
}
use softos_sdd_orchestrator.SpecRegistry.Trail.{IsRecorded}
use softos_sdd_orchestrator.SpecRegistry.Keeps.{
  Tracks, change-IsRecorded, get_or_create-Tracks, found-Tracks, expire_lock-Tracks,
}
use softos_sdd_orchestrator.SpecRegistry.Calls.{
  Request, claim, heartbeat, release, reassign, transition, handle, handle_all,
}

one_step :
    (held row to : RegistryState)
    → nat_eq (index to) (index held + 1) ≡ true
    → held ≡ row
    → index to ≡ index row + 1
one_step held row to next same =
    omega (arith, ap index same, nat_eq→eq (index to) (index held + 1) next)

abbrev KeepsRecord : Body → Type 0
KeepsRecord body = (registry : Registry) → IsRecorded registry → OnCommit IsRecorded (body registry)

respond-IsRecorded :
    (spec_id : String) (body : Body) (registry : Registry)
    → KeepsRecord body
    → IsRecorded registry
    → IsRecorded (respond spec_id body registry).1
unfolding respond
respond-IsRecorded spec_id body registry keeps r = transaction_rule body r (keeps registry r)

claim_record-IsRecorded :
    (clock : Clock) (spec_id actor source reason token : String) (ttl : ℕ) (held : Spec × Registry)
    → Tracks spec_id held
    → OnCommit IsRecorded (claim_record clock spec_id actor source reason token ttl held)
unfolding claim_record
claim_record-IsRecorded clock spec_id actor source reason token ttl (spec, registry) t =
    elim (Bool-cases (is_set spec.lock_token)) [
      | inl locked ↦ rw locked rollback
      | inr free ↦ rw free (
          commit (
            change-IsRecorded spec_id t.row _ _ registry (λ s. refl) t.found refl
              (ap some t.state_same) (ap some t.state_same) (inl refl) t.recorded))
    ]

claim_body-IsRecorded :
    (clock : Clock) (spec_id actor source reason token : String) (ttl : ℕ)
    → KeepsRecord (claim_body clock spec_id actor source reason token ttl)
unfolding claim_body
claim_body-IsRecorded clock spec_id actor source reason token ttl registry r =
    let (held, created, t) = get_or_create-Tracks clock spec_id registry r in
    rw created (
      claim_record-IsRecorded clock spec_id actor source reason token ttl _
        (expire_lock-Tracks clock source spec_id held.0 held.1 t))

must_get-Tracks :
    (spec_id : String) (spec : Spec) (registry : Registry)
    → must_get_spec spec_id registry ≡ ok spec
    → IsRecorded registry
    → Tracks spec_id (spec, registry)
unfolding must_get_spec
must_get-Tracks spec_id spec registry got r = found-Tracks spec_id spec registry (ground arith) r

as_owner-IsRecorded :
    (clock : Clock) (spec_id actor : String) (lock_token : Option String) (source : String)
    (action : Spec × Registry → Result SpecRegistryError (Unit {0} × Registry))
    → ((held : Spec × Registry) → Tracks spec_id held → OnCommit IsRecorded (action held))
    → KeepsRecord (as_owner clock spec_id actor lock_token source action)
unfolding as_owner
as_owner-IsRecorded clock spec_id actor lock_token source action keeps registry r =
    OnCommit-bind (must_get_spec spec_id registry) λ spec got.
      OnCommit-bind (require_lock_owner _ actor lock_token) λ _ _. keeps _ (
        expire_lock-Tracks clock source spec_id spec registry
          (must_get-Tracks spec_id spec registry got r))

heartbeat_record-IsRecorded :
    (clock : Clock) (spec_id actor source reason : String) (ttl : ℕ) (held : Spec × Registry)
    → Tracks spec_id held
    → OnCommit IsRecorded (heartbeat_record clock spec_id actor source reason ttl held)
unfolding heartbeat_record
heartbeat_record-IsRecorded clock spec_id actor source reason ttl (spec, registry) t = commit (
    change-IsRecorded spec_id t.row _ _ registry (λ s. refl) t.found refl (ap some t.state_same)
      (ap some t.state_same) (inl refl) t.recorded)

release_record-IsRecorded :
    (clock : Clock) (spec_id actor source reason : String) (held : Spec × Registry)
    → Tracks spec_id held
    → OnCommit IsRecorded (release_record clock spec_id actor source reason held)
unfolding release_record
release_record-IsRecorded clock spec_id actor source reason (spec, registry) t = commit (
    change-IsRecorded spec_id t.row _ _ registry (λ s. refl) t.found refl (ap some t.state_same)
      (ap some t.state_same) (inl refl) t.recorded)

reassign_record-IsRecorded :
    (clock : Clock) (spec_id actor target source audit_reason new_token : String) (ttl : ℕ)
    (held : Spec × Registry)
    → Tracks spec_id held
    → OnCommit IsRecorded
        (reassign_record clock spec_id actor target source audit_reason new_token ttl held)
unfolding reassign_record
reassign_record-IsRecorded clock spec_id actor target source audit_reason new_token ttl
      (spec, registry) t =
    commit (
      change-IsRecorded spec_id t.row _ _ registry (λ s. refl) t.found refl (ap some t.state_same)
        (ap some t.state_same) (inl refl) t.recorded)

-- The test on the indices is the one that makes a transition a single step.
transition_record-IsRecorded :
    (clock : Clock) (spec_id actor : String) (to_state : RegistryState) (source reason : String)
    (lock_token : Option String) (held : Spec × Registry)
    → Tracks spec_id held
    → OnCommit IsRecorded
        (transition_record clock spec_id actor to_state source reason lock_token held)
unfolding transition_record
transition_record-IsRecorded clock spec_id actor to_state source reason lock_token (spec, registry)
      t =
    elim (Bool-cases (nat_eq (index to_state) (index spec.state + 1))) [
      | inl next ↦ rw next (
          OnCommit-bind
            (if needs_lock to_state then require_lock_owner spec actor lock_token else ok tt)
            λ _ _. commit (
              change-IsRecorded spec_id t.row _ _ registry (λ s. refl) t.found refl
                (ap some t.state_same) refl
                (inr (one_step spec.state t.row.state to_state next t.state_same)) t.recorded))
      | inr far ↦ rw far rollback
    ]

transition_body-IsRecorded :
    (clock : Clock) (spec_id actor : String) (to_state : RegistryState) (source reason : String)
    (lock_token : Option String)
    → KeepsRecord (transition_body clock spec_id actor to_state source reason lock_token)
unfolding transition_body
transition_body-IsRecorded clock spec_id actor to_state source reason lock_token registry r =
    OnCommit-bind (must_get_spec spec_id registry) λ spec got.
      transition_record-IsRecorded clock spec_id actor to_state source reason lock_token _ (
        expire_lock-Tracks clock source spec_id spec registry
          (must_get-Tracks spec_id spec registry got r))

-- A method that checks its arguments before it opens the database.
checked-IsRecorded :
    {X : Type 0} (checks : Result SpecRegistryError X) (spec_id : String) (body : X → Body)
    (registry : Registry)
    → ((x : X) → KeepsRecord (body x))
    → IsRecorded registry
    → IsRecorded (checked checks spec_id body registry).1
checked-IsRecorded (ok x) spec_id body registry keeps r =
    respond-IsRecorded spec_id (body x) registry (keeps x) r
checked-IsRecorded (err e) spec_id body registry keeps r = r

handle-IsRecorded :
    (clock : Clock) (request : Request) (registry : Registry)
    → IsRecorded registry
    → IsRecorded (handle clock request registry).1
unfolding handle claim_spec heartbeat_spec release_spec reassign_spec transition_spec
handle-IsRecorded clock (claim spec_id actor source reason ttl token) registry r =
    checked-IsRecorded (normalized_ttl ttl) spec_id _ registry
      (claim_body-IsRecorded clock spec_id actor source reason token) r
handle-IsRecorded clock (heartbeat spec_id actor lock_token source reason ttl) registry r =
    checked-IsRecorded (normalized_ttl ttl) spec_id _ registry
      (λ n.
        as_owner-IsRecorded clock spec_id actor (some lock_token) source _
          (heartbeat_record-IsRecorded clock spec_id actor source reason n))
      r
handle-IsRecorded clock (release spec_id actor lock_token source reason) registry r =
    respond-IsRecorded spec_id _ registry
      (as_owner-IsRecorded clock spec_id actor (some lock_token) source _
        (release_record-IsRecorded clock spec_id actor source reason))
      r
handle-IsRecorded clock
      (reassign spec_id actor to_actor lock_token role force source reason ttl new_token) registry
      r =
    checked-IsRecorded _ spec_id _ registry
      (λ n.
        as_owner-IsRecorded clock spec_id actor (some lock_token) source _
          (reassign_record-IsRecorded clock spec_id actor _ source _ new_token n))
      r
handle-IsRecorded clock (transition spec_id actor to_state source reason lock_token) registry r =
    checked-IsRecorded (target_state (strip to_state)) spec_id _ registry
      (λ target. transition_body-IsRecorded clock spec_id actor target source reason lock_token) r

-- After any requests, answered or refused, from a registry whose audit is a history of its rows
-- (such as the empty one): a spec has one row, every audit entry starts from the state that the
-- entries before it gave its spec, it creates the spec as `new`, keeps its state or moves it one
-- step along the chain of states, and replaying the whole audit gives each spec the state of its row.
pub handle_all-IsRecorded :
    (requests : List (Clock × Request)) (registry : Registry)
    → IsRecorded registry
    → IsRecorded (handle_all requests registry)
unfolding handle_all
handle_all-IsRecorded [] registry r = r
handle_all-IsRecorded ((clock, request) ∷ rest) registry r =
    handle_all-IsRecorded rest (handle clock request registry).1
      (handle-IsRecorded clock request registry r)
