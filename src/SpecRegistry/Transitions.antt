-- ===== src/SpecRegistry/Transitions.antt =====
-- What a positive answer of `transition_spec` says.
use softos_sdd_orchestrator.Prelude.{
  ℕ, ◌+◌, String, ◌≡◌, ◌≢◌, refl, ◌∙◌, ap, Option, none, some, Bool, true, false, List, arith,
  eq_iff, eq_refl, if◌then◌else◌, Bool-cases, Option-cases, inl, inr, nat_eq, nat_eq→eq,
}
use softos_sdd_orchestrator.Prelude.Result.{Result, ok, err}
use softos_sdd_orchestrator.Prelude.Strip.{strip}
use softos_sdd_orchestrator.Table.Transaction.{
  transaction, OnCommit, commit, rollback, OnCommit-bind,
}
use softos_sdd_orchestrator.SpecRegistry.Data.{
  RegistryState, index, registry_state, Spec, AuditEntry, Registry, Clock, SpecRegistryError,
  is_set, or_empty,
}
use softos_sdd_orchestrator.SpecRegistry.Helpers.{
  find_spec, is_expired, expire_lock_if_needed, must_get_spec, require_lock_owner,
}
use softos_sdd_orchestrator.SpecRegistry.Methods.{
  respond, checked, get_spec, transition_record, transition_body, transition_spec, target_state,
  needs_lock,
}
use softos_sdd_orchestrator.SpecRegistry.Trail.{IsRecorded}
use softos_sdd_orchestrator.SpecRegistry.Keeps.{find-change, found-Tracks, expire_lock-Tracks}
use softos_sdd_orchestrator.SpecRegistry.Answers.{respond_ok}

-- The row's lock is the caller's, and has not run out.
pub record IsHolder (now : ℕ) (actor : String) (lock_token : Option String) (row : Spec)
    : Type 0 where
  pub locked : is_set row.lock_token ≡ true
  pub assignee : or_empty row.assignee ≡ actor
  pub token : or_empty row.lock_token ≡ or_empty lock_token
  pub fresh : is_expired now row ≡ false

-- `row` may go to the state `target` on the caller's word.
pub record MayEnter (now : ℕ) (actor : String) (lock_token : Option String) (row : Spec)
    (target : RegistryState) : Type 0 where
  pub next : index target ≡ index row.state + 1
  pub holder : needs_lock target ≡ true → IsHolder now actor lock_token row

-- The row of `spec_id` has the state.
pub record HasState (spec_id : String) (state : RegistryState) (registry : Registry) : Type 0 where
  pub row : Spec
  pub found : find_spec spec_id registry ≡ some row
  pub state_same : row.state ≡ state

owner_checked :
    (clock : Clock) (actor source : String) (lock_token : Option String) (row : Spec)
    (registry : Registry)
    → require_lock_owner (expire_lock_if_needed clock source row registry).0 actor lock_token
      ≡ ok tt
    → IsHolder clock.checked actor lock_token row
unfolding require_lock_owner expire_lock_if_needed
owner_checked clock actor source lock_token row registry e =
    elim (Bool-cases (is_expired clock.checked row)) [
      | inl late ↦ ground arith
      | inr fresh ↦ record {
        locked = ground arith;
        assignee = ground (arith, eq_iff (or_empty row.assignee) actor);
        token = ground (arith, eq_iff (or_empty row.lock_token) (or_empty lock_token));
        fresh = fresh;
      }
    ]

state-expire_lock :
    (clock : Clock) (source : String) (row : Spec) (registry : Registry)
    → (expire_lock_if_needed clock source row registry).0.state ≡ row.state
unfolding expire_lock_if_needed
state-expire_lock clock source row registry = ground arith

entered :
    (needed : Bool) (check : Result SpecRegistryError (Unit {0}))
    → (if needed then check else ok tt) ≡ ok tt
    → needed ≡ true
    → check ≡ ok tt
entered true check e n = e
entered false check e n = cc

-- What a transition commits: the target state, which the row could enter.
abbrev Entered : Clock → String → String → Option String → Spec → RegistryState → Registry → Type 0
Entered clock spec_id actor lock_token row target registry =
    HasState spec_id target registry × MayEnter clock.checked actor lock_token row target

transition_body-Entered :
    (clock : Clock) (spec_id actor : String) (target : RegistryState) (source reason : String)
    (lock_token : Option String) (row : Spec) (registry : Registry)
    → IsRecorded registry
    → find_spec spec_id registry ≡ some row
    → must_get_spec spec_id registry ≡ ok row
    → OnCommit
        (Entered clock spec_id actor lock_token row target)
        (transition_body clock spec_id actor target source reason lock_token registry)
unfolding transition_body transition_record
transition_body-Entered clock spec_id actor target source reason lock_token row registry r found
      got =
    let held : Spec × Registry = expire_lock_if_needed clock source row registry in
    let t =
      expire_lock-Tracks clock source spec_id row registry
        (found-Tracks spec_id row registry found r) in
    rw got (elim (Bool-cases (nat_eq (index target) (index held.0.state + 1))) [
      | inl next ↦ rw next (
          OnCommit-bind
            (if needs_lock target then require_lock_owner held.0 actor lock_token else ok tt)
            λ _ checked. commit (
              record {
                row = record t.row { state = target; updated_at = clock.now };
                found = find-change spec_id _ (λ s. refl) _ held.1 spec_id ∙ rw (eq_refl, t.found);
                state_same = refl;
              },
              record {
                next =
                    nat_eq→eq _ _ next
                    ∙ ap (λ s. index s + 1) (state-expire_lock clock source row registry);
                holder = λ needed.
                    owner_checked clock actor source lock_token row registry
                      (entered (needs_lock target) _ checked needed);
              },
            ))
      | inr far ↦ rw far rollback
    ])

-- What is known when `transition_spec` has answered with `spec`.
pub record TransitionReport (clock : Clock) (spec_id actor to_state : String)
    (lock_token : Option String) (before after : Registry) (spec : Spec) : Type 0 where
  pub row : Spec
  pub found : find_spec spec_id before ≡ some row
  pub target : registry_state (strip to_state) ≡ some spec.state
  pub allowed : MayEnter clock.checked actor lock_token row spec.state
  pub stored : find_spec spec_id after ≡ some spec

get_spec_found :
    (spec_id : String) (registry : Registry) (spec : Spec) (audit : List AuditEntry)
    → get_spec spec_id registry ≡ ok (spec, audit)
    → find_spec spec_id registry ≡ some spec
unfolding get_spec
get_spec_found spec_id registry spec audit e = ground arith

one_row :
    (found : Option Spec) (a b : Spec) (state : RegistryState)
    → found ≡ some a
    → found ≡ some b
    → a.state ≡ state
    → state ≡ b.state
one_row found a b state p q s = ground arith

report :
    (clock : Clock) (spec_id actor to_state source reason : String) (lock_token : Option String)
    (registry : Registry) (spec : Spec) (audit : List AuditEntry) (row : Spec)
    (target : RegistryState)
    → IsRecorded registry
    → find_spec spec_id registry ≡ some row
    → must_get_spec spec_id registry ≡ ok row
    → registry_state (strip to_state) ≡ some target
    → (respond spec_id
        (transition_body clock spec_id actor target source reason lock_token)
        registry).0
      ≡ ok (spec, audit)
    → TransitionReport clock spec_id actor to_state lock_token registry
        (respond spec_id
          (transition_body clock spec_id actor target source reason lock_token)
          registry).1
        spec
report clock spec_id actor to_state source reason lock_token registry spec audit row target r found
      got known e =
    let ((now, allowed), shown) =
      respond_ok spec_id _ registry (spec, audit)
        (transition_body-Entered clock spec_id actor target source reason lock_token row registry r
          found got)
        e in
    let stored = get_spec_found spec_id _ spec audit shown in
    let same : target ≡ spec.state =
      one_row _ now.row spec target now.found stored now.state_same in
    record {
      row = row;
      found = found;
      target = rw same at known;
      allowed = rw same at allowed;
      stored = stored;
    }

target_known :
    (text : String) (target : RegistryState)
    → target_state text ≡ ok target
    → registry_state text ≡ some target
unfolding target_state
target_known text target e = ground arith

got_found :
    (spec_id : String) (row : Spec) (registry : Registry)
    → find_spec spec_id registry ≡ some row
    → must_get_spec spec_id registry ≡ ok row
unfolding must_get_spec
got_found spec_id row registry found = ground arith

-- A spec that is not in the registry gets no positive answer.
absent_refused :
    (clock : Clock) (spec_id actor : String) (target : RegistryState) (source reason : String)
    (lock_token : Option String) (registry : Registry) (x : Spec × List AuditEntry)
    → find_spec spec_id registry ≡ none
    → (respond spec_id
        (transition_body clock spec_id actor target source reason lock_token)
        registry).0
      ≢ ok x
unfolding respond transaction transition_body must_get_spec
absent_refused clock spec_id actor target source reason lock_token registry x absent e =
    ground arith

checked_report :
    (clock : Clock) (spec_id actor to_state source reason : String) (lock_token : Option String)
    (registry : Registry) (spec : Spec) (audit : List AuditEntry)
    (checks : Result SpecRegistryError RegistryState)
    → IsRecorded registry
    → ((target : RegistryState)
        → checks ≡ ok target
        → registry_state (strip to_state) ≡ some target)
    → (checked checks spec_id
        (λ target. transition_body clock spec_id actor target source reason lock_token)
        registry).0
      ≡ ok (spec, audit)
    → TransitionReport clock spec_id actor to_state lock_token registry
        (checked checks spec_id
          (λ target. transition_body clock spec_id actor target source reason lock_token)
          registry).1
        spec
checked_report clock spec_id actor to_state source reason lock_token registry spec audit (err e) r
      known answered =
    cc
checked_report clock spec_id actor to_state source reason lock_token registry spec audit (ok target)
      r known answered =
    elim (Option-cases (find_spec spec_id registry)) [
      | inl absent ↦ absurd (
          absent_refused clock spec_id actor target source reason lock_token registry _ absent
            answered)
      | inr (row, found) ↦
          report clock spec_id actor to_state source reason lock_token registry spec audit row
            target r found (got_found spec_id row registry found) (known target refl) answered
    ]

-- When `transition_spec` answers with a spec, then the spec had a row, the stripped target names the
-- state that the answer and the new row show, that state is the next one after the row's, and to
-- enter `in_edit` or `in_execution` the caller was the assignee, showed the row's non-empty token,
-- and the lock had not run out at the look at the clock.
pub transition_sound :
    (clock : Clock) (spec_id actor to_state source reason : String) (lock_token : Option String)
    (registry : Registry) (spec : Spec) (audit : List AuditEntry)
    → IsRecorded registry
    → (transition_spec clock spec_id actor to_state source reason lock_token registry).0
      ≡ ok (spec, audit)
    → TransitionReport clock spec_id actor to_state lock_token registry
        (transition_spec clock spec_id actor to_state source reason lock_token registry).1
        spec
unfolding transition_spec
transition_sound clock spec_id actor to_state source reason lock_token registry spec audit r e =
    checked_report clock spec_id actor to_state source reason lock_token registry spec audit
      (target_state (strip to_state)) r (target_known (strip to_state)) e
