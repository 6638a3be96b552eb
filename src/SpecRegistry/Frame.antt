-- ===== src/SpecRegistry/Frame.antt =====
-- A request about one spec leaves the rows of the others alone.

use softos_sdd_orchestrator.Prelude.{
  ℕ, ◌+◌, String, ◌≡◌, refl, ◌∙◌, Option, some, false, arith, ◌==◌, if◌then◌else◌, Bool-cases,
  Option-cases, inl, inr, nat_eq,
}
use softos_sdd_orchestrator.Prelude.Result.{Result, ok, err}
use softos_sdd_orchestrator.Prelude.Strip.{strip}
use softos_sdd_orchestrator.Table.Laws.{select-key}
use softos_sdd_orchestrator.Table.Transaction.{
  transaction_rule, OnCommit, commit, rollback, OnCommit-bind,
}
use softos_sdd_orchestrator.SpecRegistry.Data.{
  RegistryState, index, Spec, AuditEntry, Registry, Clock, SpecRegistryError, spec_id_of, is_set,
}
use softos_sdd_orchestrator.SpecRegistry.Helpers.{
  find_spec, append_audit, update_spec, is_expired, expire_lock_if_needed, must_get_spec,
  require_lock_owner, normalized_ttl, unlocked,
}
use softos_sdd_orchestrator.SpecRegistry.Methods.{
  Body, respond, checked, claim_record, claim_body, claim_spec, as_owner, heartbeat_record,
  heartbeat_spec, release_record, release_spec, reassign_record, reassign_spec, transition_record,
  transition_body, transition_spec, target_state, needs_lock,
}
use softos_sdd_orchestrator.SpecRegistry.Keeps.{
  find-change, find-with_new, get_or_create_found, get_or_create_absent,
}
use softos_sdd_orchestrator.SpecRegistry.Calls.{
  Request, claim, heartbeat, release, reassign, transition, handle,
}

-- The spec that a request is about.
abbrev pub subject : Request → String
subject (claim spec_id _ _ _ _ _) = spec_id
subject (heartbeat spec_id _ _ _ _ _) = spec_id
subject (release spec_id _ _ _ _) = spec_id
subject (reassign spec_id _ _ _ _ _ _ _ _ _) = spec_id
subject (transition spec_id _ _ _ _ _) = spec_id

got_key :
    (spec_id : String) (spec : Spec) (registry : Registry)
    → must_get_spec spec_id registry ≡ ok spec
    → spec.spec_id ≡ spec_id
unfolding must_get_spec find_spec
got_key spec_id spec registry got =
    select-key spec_id_of spec_id registry.specs {r = spec} (ground arith)

-- The row of `j` is `o`, while a request works on `spec_id`.
module _ (j : String) (o : Option Spec) (spec_id : String) (other : (spec_id == j) ≡ false) where
  abbrev Stays : Registry → Type 0
  Stays registry = find_spec j registry ≡ o

  change-Stays :
      (f : Spec → Spec) (entry : AuditEntry) (registry : Registry)
      → ((s : Spec) → (f s).spec_id ≡ s.spec_id)
      → Stays registry
      → Stays (append_audit entry (update_spec spec_id f registry))
  change-Stays f entry registry keeps h = find-change spec_id f keeps entry registry j ∙ rw other h

  expire_lock-Stays :
      (clock : Clock) (source : String) (spec : Spec) (registry : Registry)
      → spec.spec_id ≡ spec_id
      → Stays registry
      → Stays (expire_lock_if_needed clock source spec registry).1
  unfolding expire_lock_if_needed
  expire_lock-Stays clock source spec registry id h =
      elim (Bool-cases (is_expired clock.checked spec)) [
        | inl late ↦
            rw late (rw id (change-Stays (unlocked clock.expired) _ registry (λ s. refl) h))
        | inr held ↦ rw held h
      ]

  claim_record-Stays :
      (clock : Clock) (actor source reason token : String) (ttl : ℕ) (held : Spec × Registry)
      → Stays held.1
      → OnCommit Stays (claim_record clock spec_id actor source reason token ttl held)
  unfolding claim_record
  claim_record-Stays clock actor source reason token ttl (spec, registry) h =
      elim (Bool-cases (is_set spec.lock_token)) [
        | inl locked ↦ rw locked rollback
        | inr free ↦ rw free (commit (change-Stays _ _ registry (λ s. refl) h))
      ]

  claim_body-Stays :
      (clock : Clock) (actor source reason token : String) (ttl : ℕ) (registry : Registry)
      → Stays registry
      → OnCommit Stays (claim_body clock spec_id actor source reason token ttl registry)
  unfolding claim_body
  claim_body-Stays clock actor source reason token ttl registry h =
      elim (Option-cases (find_spec spec_id registry)) [
        | inl absent ↦ rw (get_or_create_absent clock spec_id registry absent) (
            claim_record-Stays clock actor source reason token ttl _ (
              expire_lock-Stays clock source _ _ refl
                (find-with_new clock spec_id j registry absent ∙ rw other h)))
        | inr (spec, found) ↦ rw (get_or_create_found clock spec_id registry spec found) (
            claim_record-Stays clock actor source reason token ttl _ (
              expire_lock-Stays clock source spec registry
                (unfold find_spec in select-key spec_id_of spec_id registry.specs found) h))
      ]

  as_owner-Stays :
      (clock : Clock) (actor : String) (lock_token : Option String) (source : String)
      (action : Spec × Registry → Result SpecRegistryError (Unit {0} × Registry))
      → ((held : Spec × Registry) → Stays held.1 → OnCommit Stays (action held))
      → (registry : Registry) → Stays registry
      → OnCommit Stays (as_owner clock spec_id actor lock_token source action registry)
  unfolding as_owner
  as_owner-Stays clock actor lock_token source action keeps registry h =
      OnCommit-bind (must_get_spec spec_id registry) λ spec got.
        OnCommit-bind (require_lock_owner _ actor lock_token) λ _ _.
          keeps _
            (expire_lock-Stays clock source spec registry (got_key spec_id spec registry got) h)

  transition_record-Stays :
      (clock : Clock) (actor : String) (to_state : RegistryState) (source reason : String)
      (lock_token : Option String) (held : Spec × Registry)
      → Stays held.1
      → OnCommit Stays
          (transition_record clock spec_id actor to_state source reason lock_token held)
  unfolding transition_record
  transition_record-Stays clock actor to_state source reason lock_token (spec, registry) h =
      elim (Bool-cases (nat_eq (index to_state) (index spec.state + 1))) [
        | inl next ↦ rw next (
            OnCommit-bind
              (if needs_lock to_state then require_lock_owner spec actor lock_token else ok tt)
              λ _ _. commit (change-Stays _ _ registry (λ s. refl) h))
        | inr far ↦ rw far rollback
      ]

  respond-Stays :
      (body : Body) (registry : Registry)
      → ((r : Registry) → Stays r → OnCommit Stays (body r))
      → Stays registry
      → Stays (respond spec_id body registry).1
  unfolding respond
  respond-Stays body registry keeps h = transaction_rule {P = Stays} body h (keeps registry h)

  checked-Stays :
      {X : Type 0} (checks : Result SpecRegistryError X) (body : X → Body) (registry : Registry)
      → ((x : X) (r : Registry) → Stays r → OnCommit Stays (body x r))
      → Stays registry
      → Stays (checked checks spec_id body registry).1
  checked-Stays (ok x) body registry keeps h = respond-Stays (body x) registry (keeps x) h
  checked-Stays (err e) body registry keeps h = h

pub handle-Stays :
    (clock : Clock) (request : Request) (registry : Registry) (j : String)
    → (subject request == j) ≡ false
    → find_spec j (handle clock request registry).1 ≡ find_spec j registry
unfolding handle claim_spec heartbeat_spec heartbeat_record release_spec release_record
    reassign_spec reassign_record transition_spec transition_body
handle-Stays clock (claim spec_id actor source reason ttl token) registry j other =
    checked-Stays j _ spec_id other (normalized_ttl ttl) _ registry
      (claim_body-Stays j _ spec_id other clock actor source reason token) refl
handle-Stays clock (heartbeat spec_id actor lock_token source reason ttl) registry j other =
    checked-Stays j _ spec_id other (normalized_ttl ttl) _ registry
      (λ n.
        as_owner-Stays j _ spec_id other clock actor (some lock_token) source _
          (λ held h. commit (change-Stays j _ spec_id other _ _ held.1 (λ s. refl) h)))
      refl
handle-Stays clock (release spec_id actor lock_token source reason) registry j other =
    respond-Stays j _ spec_id other _ registry
      (as_owner-Stays j _ spec_id other clock actor (some lock_token) source _
        (λ held h. commit (change-Stays j _ spec_id other _ _ held.1 (λ s. refl) h)))
      refl
handle-Stays clock
      (reassign spec_id actor to_actor lock_token role force source reason ttl new_token) registry j
      other =
    checked-Stays j _ spec_id other _ _ registry
      (λ n.
        as_owner-Stays j _ spec_id other clock actor (some lock_token) source _
          (λ held h. commit (change-Stays j _ spec_id other _ _ held.1 (λ s. refl) h)))
      refl
handle-Stays clock (transition spec_id actor to_state source reason lock_token) registry j other =
    checked-Stays j _ spec_id other (target_state (strip to_state)) _ registry
      (λ target r h. OnCommit-bind (must_get_spec spec_id r) λ spec got.
        transition_record-Stays j _ spec_id other clock actor target source reason lock_token _
          (expire_lock-Stays j _ spec_id other clock source spec r (got_key spec_id spec r got) h))
      refl
