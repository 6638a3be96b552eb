-- ===== src/SpecRegistry/Answers.antt =====
-- What a positive answer says of the registry behind it.
use softos_sdd_orchestrator.Prelude.{
  ℕ, ◌+◌, ◌<◌, String, ◌≡◌, refl, ◌∙◌, some, false, List, ◌==◌, eq_refl, Bool-cases, inl, inr,
}
use softos_sdd_orchestrator.Prelude.Int.{ℤ}
use softos_sdd_orchestrator.Prelude.Lists.{All}
use softos_sdd_orchestrator.Prelude.Result.{Result, ok, err, ◌>>=◌}
use softos_sdd_orchestrator.Table.Transaction.{settle, transaction, OnCommit, commit, rollback}
use softos_sdd_orchestrator.SpecRegistry.Data.{
  Spec, AuditEntry, Registry, Clock, SpecRegistryError, spec_already_claimed, is_set,
}
use softos_sdd_orchestrator.SpecRegistry.Helpers.{normalized_ttl}
use softos_sdd_orchestrator.SpecRegistry.Methods.{
  Body, checked, respond, get_spec, claim_record, claim_body, claim_spec,
}
use softos_sdd_orchestrator.SpecRegistry.Trail.{IsRecorded}
use softos_sdd_orchestrator.SpecRegistry.Keeps.{
  Tracks, find-change, get_or_create-Tracks, expire_lock-Tracks,
}
use softos_sdd_orchestrator.SpecRegistry.Lease.{
  Held, HasLock, IsForeign, handle_all-HasLock, claim_body-HasLock,
}
use softos_sdd_orchestrator.SpecRegistry.Calls.{Request, handle_all}

settled :
    {P : Registry → Type 0} (spec_id : String) (s : Registry)
    (r : Result SpecRegistryError (Unit {0} × Registry)) (x : Spec × List AuditEntry)
    → OnCommit P r
    → ((settle s r).0 >>= λ _. get_spec spec_id (settle s r).1) ≡ ok x
    → P (settle s r).1 × (get_spec spec_id (settle s r).1 ≡ ok x)
settled spec_id s (ok (tt, s')) x (commit h) e = (h, e)
settled spec_id s (err f) x c e = cc

-- A positive answer comes from a transaction that committed, and shows the spec as it is then.
pub respond_ok :
    {P : Registry → Type 0} (spec_id : String) (body : Body) (registry : Registry)
    (x : Spec × List AuditEntry)
    → OnCommit P (body registry)
    → (respond spec_id body registry).0 ≡ ok x
    → P (respond spec_id body registry).1
      × (get_spec spec_id (respond spec_id body registry).1 ≡ ok x)
unfolding respond transaction
respond_ok spec_id body registry x c e = settled spec_id registry (body registry) x c e

claim_record-HasLock :
    (clock : Clock) (spec_id actor source reason token : String) (ttl : ℕ) (held : Spec × Registry)
    → Tracks spec_id held
    → OnCommit
        (HasLock (record {
          spec_id = spec_id;
          actor = actor;
          token = token;
          expires = clock.lease_from + ttl;
        }))
        (claim_record clock spec_id actor source reason token ttl held)
unfolding claim_record
claim_record-HasLock clock spec_id actor source reason token ttl (spec, registry) t =
    elim (Bool-cases (is_set spec.lock_token)) [
      | inl locked ↦ rw locked rollback
      | inr free ↦ rw free (
          commit (record {
            row = record t.row {
              assignee = some actor;
              lock_token = some token;
              lock_expires_at = some (clock.lease_from + ttl);
              updated_at = clock.now;
            };
            found = find-change spec_id _ (λ s. refl) _ registry spec_id ∙ rw (eq_refl, t.found);
            assignee = refl;
            token = refl;
            expires = refl;
          }))
    ]

pub claim_body_locks :
    (clock : Clock) (spec_id actor source reason token : String) (ttl : ℕ) (registry : Registry)
    → IsRecorded registry
    → OnCommit
        (HasLock (record {
          spec_id = spec_id;
          actor = actor;
          token = token;
          expires = clock.lease_from + ttl;
        }))
        (claim_body clock spec_id actor source reason token ttl registry)
unfolding claim_body
claim_body_locks clock spec_id actor source reason token ttl registry r =
    let (held, created, t) = get_or_create-Tracks clock spec_id registry r in
    rw created (
      claim_record-HasLock clock spec_id actor source reason token ttl _
        (expire_lock-Tracks clock source spec_id held.0 held.1 t))

refused :
    (spec_id : String) (body : Body) (registry : Registry) (e : SpecRegistryError)
    → body registry ≡ err e
    → respond spec_id body registry ≡ (err e, registry)
unfolding respond transaction
refused spec_id body registry e raised = rw raised

-- A body that raises the same error for every value of a check.
answered :
    {X : Type 0} (check : Result SpecRegistryError X) (spec_id : String) (body : X → Body)
    (registry : Registry) (e : SpecRegistryError)
    → ((x : X) → body x registry ≡ err e)
    → checked check spec_id body registry ≡ (check >>= λ _. err e, registry)
answered (ok x) spec_id body registry e raises = refused spec_id (body x) registry e (raises x)
answered (err f) spec_id body registry e raises = refl

-- One winner: from a registry whose records and audit agree, when a claim of a spec with a token that is
-- not empty has been answered positively, then after any requests of strangers that look at the clock
-- before the lock's end, a claim of this spec by anyone, the holder too, that looks at the clock before
-- that end changes nothing at all, and it is refused: with SPEC_ALREADY_CLAIMED if its TTL is accepted,
-- and else with the error of the TTL.
pub claim_excludes :
    (clock : Clock) (spec_id actor source reason : String) (ttl_seconds : ℤ) (token : String)
    (registry : Registry) (answer : Spec × List AuditEntry) (ttl : ℕ)
    (requests : List (Clock × Request)) (clock' : Clock) (actor' source' reason' : String)
    (ttl_seconds' : ℤ) (token' : String)
    → IsRecorded registry
    → (token == "") ≡ false
    → normalized_ttl ttl_seconds ≡ ok ttl
    → (claim_spec clock spec_id actor source reason ttl_seconds token registry).0 ≡ ok answer
    → All
        (IsForeign (record {
          spec_id = spec_id;
          actor = actor;
          token = token;
          expires = clock.lease_from + ttl;
        }))
        requests
    → clock'.checked < clock.lease_from + ttl
    → claim_spec clock' spec_id actor' source' reason' ttl_seconds' token' (
        handle_all requests
          (claim_spec clock spec_id actor source reason ttl_seconds token registry).1)
      ≡ (
        normalized_ttl ttl_seconds' >>= λ _. err spec_already_claimed,
        handle_all requests
            (claim_spec clock spec_id actor source reason ttl_seconds token registry).1,
      )
unfolding claim_spec
claim_excludes clock spec_id actor source reason ttl_seconds token registry answer ttl requests
      clock' actor' source' reason' ttl_seconds' token' r nonempty valid granted foreign early =
    let held : Held = record {
      spec_id = spec_id;
      actor = actor;
      token = token;
      expires = clock.lease_from + ttl;
    } in
    let body : Body = claim_body clock spec_id actor source reason token ttl in
    let granted' : (respond spec_id body registry).0 ≡ ok answer = rw valid at granted in
    let (locked, _) =
      respond_ok {P = HasLock held} spec_id body registry answer
        (claim_body_locks clock spec_id actor source reason token ttl registry r) granted' in
    let after =
      handle_all-HasLock held requests (respond spec_id body registry).1 nonempty foreign locked in
    rw valid (
      answered (normalized_ttl ttl_seconds') spec_id
        (claim_body clock' spec_id actor' source' reason' token') _ spec_already_claimed
        (λ ttl'.
          claim_body-HasLock held nonempty clock' actor' source' reason' token' ttl' _ after early))
