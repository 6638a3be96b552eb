-- ===== src/SpecRegistry/Lease.antt =====
-- The lock of a spec stands until it expires, whatever those do who do not hold it.

use softos_sdd_orchestrator.Prelude.{
  ℕ, ◌+◌, ◌<◌, String, ◌≡◌, refl, sym, ◌∙◌, inl, inr, Option, some, true, false, ◌&&◌, List, [],
  ◌∷◌, arith, ◌==◌, eq_iff, eq_refl, if◌then◌else◌, Bool-cases, nat_eq, subst,
}
use softos_sdd_orchestrator.Prelude.Lists.{All}
use softos_sdd_orchestrator.Prelude.Result.{Result, ok, err}
use softos_sdd_orchestrator.Prelude.Strip.{strip}
use softos_sdd_orchestrator.Table.Transaction.{
  transaction_rule, OnCommit, commit, rollback, OnCommit-bind,
}
use softos_sdd_orchestrator.SpecRegistry.Data.{
  RegistryState, index, Spec, Registry, Clock, SpecRegistryError, spec_already_claimed,
  lock_mismatch,
}
use softos_sdd_orchestrator.SpecRegistry.Helpers.{
  find_spec, is_expired, expire_lock_if_needed, must_get_spec, require_lock_owner, normalized_ttl,
}
use softos_sdd_orchestrator.SpecRegistry.Methods.{
  Body, respond, checked, claim_record, claim_body, claim_spec, as_owner, heartbeat_spec,
  release_spec, reassign_spec, transition_record, transition_body, transition_spec, target_state,
  needs_lock,
}
use softos_sdd_orchestrator.SpecRegistry.Keeps.{find-change, get_or_create_found}
use softos_sdd_orchestrator.SpecRegistry.Frame.{subject, handle-Stays}
use softos_sdd_orchestrator.SpecRegistry.Calls.{
  Request, claim, heartbeat, release, reassign, transition, handle, handle_all,
}

-- A lock: the spec, and the columns assignee, lock_token, lock_expires_at.
pub record Held : Type 0 where
  pub spec_id : String
  pub actor : String
  pub token : String
  pub expires : ℕ

-- The registry holds the lock.
pub record HasLock (held : Held) (registry : Registry) : Type 0 where
  pub row : Spec
  pub found : find_spec held.spec_id registry ≡ some row
  pub assignee : row.assignee ≡ some held.actor
  pub token : row.lock_token ≡ some held.token
  pub expires : row.lock_expires_at ≡ some held.expires

-- A request that does not show the holder's name and token for this spec. Claims and transitions
-- need not show them.
abbrev pub IsStranger : Held → Request → Type 0
IsStranger held (heartbeat spec_id actor token _ _ _) =
    (spec_id == held.spec_id && (held.actor == actor && held.token == token)) ≡ false
IsStranger held (release spec_id actor token _ _) =
    (spec_id == held.spec_id && (held.actor == actor && held.token == token)) ≡ false
IsStranger held (reassign spec_id actor _ token _ _ _ _ _ _) =
    (spec_id == held.spec_id && (held.actor == actor && held.token == token)) ≡ false
IsStranger held _ = Unit

-- Such a request, whose look at the clock comes before the lock's end.
abbrev pub IsForeign : Held → Clock × Request → Type 0
IsForeign held (clock, request) = (clock.checked < held.expires) × IsStranger held request

module _ (held : Held) (nonempty : (held.token == "") ≡ false) where
  -- Nothing has expired.
  expire_lock-HasLock :
      (clock : Clock) (source : String) (registry : Registry) (h : HasLock held registry)
      → clock.checked < held.expires
      → expire_lock_if_needed clock source h.row registry ≡ (h.row, registry)
  unfolding expire_lock_if_needed is_expired
  expire_lock-HasLock clock source registry h early = rw h.expires (ground arith)

  pub claim_body-HasLock :
      (clock : Clock) (actor source reason token : String) (ttl : ℕ) (registry : Registry)
      (h : HasLock held registry)
      → clock.checked < held.expires
      → claim_body clock held.spec_id actor source reason token ttl registry
        ≡ err spec_already_claimed
  unfolding claim_body claim_record
  claim_body-HasLock clock actor source reason token ttl registry h early =
      rw (get_or_create_found clock held.spec_id registry h.row h.found)
        (rw (expire_lock-HasLock clock source registry h early) (rw (h.token, nonempty)))

  must_get-HasLock :
      (registry : Registry) (h : HasLock held registry)
      → must_get_spec held.spec_id registry ≡ ok h.row
  unfolding must_get_spec
  must_get-HasLock registry h = ground (arith, h.found)

  stranger_refused :
      (actor token : String) (registry : Registry) (h : HasLock held registry)
      → (held.actor == actor && held.token == token) ≡ false
      → require_lock_owner h.row actor (some token) ≡ err lock_mismatch
  unfolding require_lock_owner
  stranger_refused actor token registry h stranger = rw (h.token, h.assignee) (ground arith)

  as_owner-HasLock :
      (clock : Clock) (actor token source : String)
      (action : Spec × Registry → Result SpecRegistryError (Unit {0} × Registry))
      (registry : Registry) (h : HasLock held registry)
      → clock.checked < held.expires
      → (held.actor == actor && held.token == token) ≡ false
      → as_owner clock held.spec_id actor (some token) source action registry ≡ err lock_mismatch
  unfolding as_owner
  as_owner-HasLock clock actor token source action registry h early stranger =
      rw (must_get-HasLock registry h) (
        rw (expire_lock-HasLock clock source registry h early)
          (rw (stranger_refused actor token registry h stranger)))

  transition_record-HasLock :
      (clock : Clock) (actor : String) (to_state : RegistryState) (source reason : String)
      (lock_token : Option String) (registry : Registry) (h : HasLock held registry)
      → OnCommit (HasLock held) (
          transition_record clock held.spec_id actor to_state source reason lock_token
            (h.row, registry))
  unfolding transition_record
  transition_record-HasLock clock actor to_state source reason lock_token registry h =
      elim (Bool-cases (nat_eq (index to_state) (index h.row.state + 1))) [
        | inl next ↦ rw next (
            OnCommit-bind
              (if needs_lock to_state then require_lock_owner h.row actor lock_token else ok tt)
              λ _ _. commit (record {
                row = record h.row { state = to_state; updated_at = clock.now };
                found =
                    find-change held.spec_id _ (λ s. refl) _ registry held.spec_id
                    ∙ rw (eq_refl, h.found);
                assignee = h.assignee;
                token = h.token;
                expires = h.expires;
              }))
        | inr far ↦ rw far rollback
      ]

  transition_body-HasLock :
      (clock : Clock) (actor : String) (to_state : RegistryState) (source reason : String)
      (lock_token : Option String) (registry : Registry)
      → clock.checked < held.expires
      → HasLock held registry
      → OnCommit
          (HasLock held)
          (transition_body clock held.spec_id actor to_state source reason lock_token registry)
  unfolding transition_body
  transition_body-HasLock clock actor to_state source reason lock_token registry early h =
      rw (must_get-HasLock registry h) (
        rw (expire_lock-HasLock clock source registry h early)
          (transition_record-HasLock clock actor to_state source reason lock_token registry h))

  -- A body that raises changes nothing.
  refused-HasLock :
      (body : Body) (e : SpecRegistryError) (registry : Registry)
      → body registry ≡ err e
      → HasLock held registry
      → HasLock held (respond held.spec_id body registry).1
  unfolding respond
  refused-HasLock body e registry raised h =
      transaction_rule {P = HasLock held} body h (rw raised rollback)

  checked-HasLock :
      {X : Type 0} (checks : Result SpecRegistryError X) (body : X → Body) (registry : Registry)
      → ((x : X) → HasLock held (respond held.spec_id (body x) registry).1)
      → HasLock held registry
      → HasLock held (checked checks held.spec_id body registry).1
  checked-HasLock (ok x) body registry keeps h = keeps x
  checked-HasLock (err e) body registry keeps h = h

-- The row of the spec is the same, so its lock is.
same_row-HasLock :
    (held : Held) (registry registry' : Registry)
    → find_spec held.spec_id registry' ≡ find_spec held.spec_id registry
    → HasLock held registry
    → HasLock held registry'
same_row-HasLock held registry registry' same h = record {
  row = h.row;
  found = same ∙ h.found;
  assignee = h.assignee;
  token = h.token;
  expires = h.expires;
}

-- `spec_id` is the held one, if the test says so.
on_spec :
    (P : String → Type 0) (held : Held) (spec_id : String)
    → (spec_id == held.spec_id) ≡ true
    → P held.spec_id
    → P spec_id
on_spec P held spec_id same p = subst P (sym ((eq_iff spec_id held.spec_id).0 same)) p

on_held :
    (held : Held) (clock : Clock) (request : Request) (registry : Registry)
    → (subject request == held.spec_id) ≡ true
    → (held.token == "") ≡ false
    → IsForeign held (clock, request)
    → HasLock held registry
    → HasLock held (handle clock request registry).1
unfolding handle claim_spec heartbeat_spec release_spec reassign_spec transition_spec
on_held held clock (claim spec_id actor source reason ttl token) registry same nonempty f h =
    on_spec (λ id. HasLock held (claim_spec clock id actor source reason ttl token registry).1) held
      spec_id same
      (checked-HasLock held nonempty (normalized_ttl ttl) _ registry
        (λ n.
          refused-HasLock held nonempty _ spec_already_claimed registry
            (claim_body-HasLock held nonempty clock actor source reason token n registry h f.0) h)
        h)
on_held held clock (heartbeat spec_id actor token source reason ttl) registry same nonempty f h =
    on_spec (λ id. HasLock held (heartbeat_spec clock id actor token source reason ttl registry).1)
      held spec_id same
      (checked-HasLock held nonempty (normalized_ttl ttl) _ registry
        (λ n.
          refused-HasLock held nonempty _ lock_mismatch registry
            (as_owner-HasLock held nonempty clock actor token source _ registry h f.0
              (ground arith))
            h)
        h)
on_held held clock (release spec_id actor token source reason) registry same nonempty f h =
    on_spec (λ id. HasLock held (release_spec clock id actor token source reason registry).1) held
      spec_id same
      (refused-HasLock held nonempty _ lock_mismatch registry
        (as_owner-HasLock held nonempty clock actor token source _ registry h f.0 (ground arith)) h)
on_held held clock (reassign spec_id actor to_actor token role force source reason ttl new_token)
      registry same nonempty f h =
    on_spec
      (λ id.
        HasLock held
          (reassign_spec clock id actor to_actor token role force source reason ttl new_token
            registry).1)
      held spec_id same
      (checked-HasLock held nonempty _ _ registry
        (λ n.
          refused-HasLock held nonempty _ lock_mismatch registry
            (as_owner-HasLock held nonempty clock actor token source _ registry h f.0
              (ground arith))
            h)
        h)
on_held held clock (transition spec_id actor to_state source reason lock_token) registry same
      nonempty f h =
    on_spec
      (λ id.
        HasLock held (transition_spec clock id actor to_state source reason lock_token registry).1)
      held spec_id same
      (checked-HasLock held nonempty (target_state (strip to_state)) _ registry
        (λ target.
          unfold respond in
          transaction_rule {P = HasLock held} _ h (
            transition_body-HasLock held nonempty clock actor target source reason lock_token
              registry f.0 h))
        h)

handle-HasLock :
    (held : Held) (clock : Clock) (request : Request) (registry : Registry)
    → (held.token == "") ≡ false
    → IsForeign held (clock, request)
    → HasLock held registry
    → HasLock held (handle clock request registry).1
handle-HasLock held clock request registry nonempty f h =
    elim (Bool-cases (subject request == held.spec_id)) [
      | inl same ↦ on_held held clock request registry same nonempty f h
      | inr other ↦
          same_row-HasLock held registry _ (handle-Stays clock request registry held.spec_id other)
            h
    ]

-- A lock keeps its assignee, its token and its end through any requests that look at the clock
-- before that end and do not show the holder's name and token for this spec: claims, heartbeats,
-- releases and reassignments of strangers, and transitions by anyone. The token must not be empty.
pub handle_all-HasLock :
    (held : Held) (requests : List (Clock × Request)) (registry : Registry)
    → (held.token == "") ≡ false
    → All (IsForeign held) requests
    → HasLock held registry
    → HasLock held (handle_all requests registry)
unfolding handle_all
handle_all-HasLock held [] registry nonempty f h = h
handle_all-HasLock held ((clock, request) ∷ rest) registry nonempty f h =
    handle_all-HasLock held rest (handle clock request registry).1 nonempty f.1
      (handle-HasLock held clock request registry nonempty f.0 h)
