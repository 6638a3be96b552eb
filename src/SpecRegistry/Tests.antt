-- ===== src/SpecRegistry/Tests.antt =====
-- Runs of the registry, and the theorems at concrete inputs.
use softos_sdd_orchestrator.Prelude.{ℕ, ◌≡◌, refl, none, some, List, [], ◌∷◌, arith}
use softos_sdd_orchestrator.Prelude.Int.{pos}
use softos_sdd_orchestrator.Prelude.Text.{concat}
use softos_sdd_orchestrator.Prelude.Strip.{strip, lower}
use softos_sdd_orchestrator.Prelude.Result.{err}
use softos_sdd_orchestrator.Table.{select_where, insert, select, update}
use softos_sdd_orchestrator.Table.Transaction.{transaction}
use softos_sdd_orchestrator.SpecRegistry.Data.{
  new, in_edit, registry_state, Spec, AuditEntry, Registry, Clock, spec_already_claimed,
  lock_required, no_specs,
}
use softos_sdd_orchestrator.SpecRegistry.Helpers
use softos_sdd_orchestrator.SpecRegistry.Helpers.{find_spec}
use softos_sdd_orchestrator.SpecRegistry.Methods
use softos_sdd_orchestrator.SpecRegistry.Methods.{
  claim_spec, heartbeat_spec, release_spec, transition_spec, list_specs, matches, latest_first,
}
use softos_sdd_orchestrator.SpecRegistry.Trail.{IsRecorded, no_specs-IsRecorded}
use softos_sdd_orchestrator.SpecRegistry.Audit.{handle_all-IsRecorded}
use softos_sdd_orchestrator.SpecRegistry.Lease.{Held, HasLock, handle_all-HasLock}
use softos_sdd_orchestrator.SpecRegistry.Answers.{claim_excludes}
use softos_sdd_orchestrator.SpecRegistry.Transitions.{TransitionReport, transition_sound}
use softos_sdd_orchestrator.SpecRegistry.Expiry.{expiry_rolled_back}
use softos_sdd_orchestrator.SpecRegistry.Listing.{IsListing, list_specs_faithful}
use softos_sdd_orchestrator.SpecRegistry.Calls.{
  Request, claim, heartbeat, transition, handle, handle_all,
}

program : Unit {0}
unfolding concat strip lower select_where insert select update transaction registry_state
    Helpers.append_audit Helpers.update_spec find_spec Helpers.get_or_create_spec
    Helpers.must_get_spec Helpers.is_expired Helpers.expire_lock_if_needed
    Helpers.require_lock_owner Helpers.normalized_ttl Methods.get_spec Methods.respond
    Methods.claim_record Methods.claim_body claim_spec Methods.as_owner Methods.heartbeat_record
    heartbeat_spec Methods.release_record release_spec Methods.reassign_record
    Methods.check_reassign Methods.reassign_spec Methods.transition_record Methods.transition_body
    Methods.target_state transition_spec handle handle_all
program = tt

-- All readings of one call at one second.
abbrev at : ℕ → Clock
at t = record {
  created = t;
  created_audit = t;
  checked = t;
  expired = t;
  expired_audit = t;
  now = t;
  lease_from = t;
  audited = t;
}

abbrev claimed : Registry
claimed = (claim_spec (at 100) "s1" "ann" "api" "" (pos 30) "t1" no_specs).1

abbrev edited : List (Clock × Request)
edited =
    (at 101, transition "s1" "ann" " triaged " "api" "" none)
    ∷ (at 102, transition "s1" "ann" "in_edit" "api" "" (some "t1"))
    ∷ (at 103, heartbeat "s1" "bob" "t1" "api" "" (pos 30))
    ∷ (at 104, claim "s2" "bob" "api" "" (pos 30) "t2")
    ∷ []

abbrev held : Held
held = record { spec_id = "s1"; actor = "ann"; token = "t1"; expires = 130 }

-- The stranger's heartbeat was refused; the two transitions went through.
state_edited :
    find_spec "s1" (handle_all edited claimed)
    ≡ some (record {
      spec_id = "s1";
      state = in_edit;
      assignee = some "ann";
      lock_token = some "t1";
      lock_expires_at = some 130;
      created_at = 100;
      updated_at = 102;
    })
unfolding program
state_edited = refl

handle_all-IsRecorded_example : IsRecorded (handle_all edited no_specs)
handle_all-IsRecorded_example = handle_all-IsRecorded edited no_specs no_specs-IsRecorded

claimed-HasLock : HasLock held claimed
unfolding program
claimed-HasLock = record { row = _; found = refl; assignee = refl; token = refl; expires = refl }

handle_all-HasLock_example : HasLock held (handle_all edited claimed)
handle_all-HasLock_example =
    handle_all-HasLock held edited claimed refl
      ((omega arith, tt), ((omega arith, tt), ((omega arith, refl), ((omega arith, tt), tt))))
      claimed-HasLock

abbrev claim_answer : Spec × List AuditEntry
claim_answer = (
  record {
    spec_id = "s1";
    state = new;
    assignee = some "ann";
    lock_token = some "t1";
    lock_expires_at = some 130;
    created_at = 100;
    updated_at = 100;
  },
  claimed.audit,
)

claim_excludes_example :
    claim_spec (at 129) "s1" "bob" "api" "" (pos 60) "t3" (handle_all edited claimed)
    ≡ (err spec_already_claimed, handle_all edited claimed)
unfolding program
claim_excludes_example =
    claim_excludes (at 100) "s1" "ann" "api" "" (pos 30) "t1" no_specs claim_answer 30 edited
      (at 129) "bob" "api" "" (pos 60) "t3" no_specs-IsRecorded refl refl refl
      ((omega arith, tt), ((omega arith, tt), ((omega arith, refl), ((omega arith, tt), tt))))
      (omega arith)

abbrev triaged_once : Registry
triaged_once = handle_all ((at 101, transition "s1" "ann" "triaged" "api" "" none) ∷ []) claimed

triaged_once-IsRecorded : IsRecorded triaged_once
unfolding program
triaged_once-IsRecorded =
    handle_all-IsRecorded
      ((at 100, claim "s1" "ann" "api" "" (pos 30) "t1")
        ∷ (at 101, transition "s1" "ann" "triaged" "api" "" none)
        ∷ [])
      no_specs no_specs-IsRecorded

abbrev in_edit_spec : Spec
in_edit_spec = record {
  spec_id = "s1";
  state = in_edit;
  assignee = some "ann";
  lock_token = some "t1";
  lock_expires_at = some 130;
  created_at = 100;
  updated_at = 102;
}

transition_sound_example :
    TransitionReport
      (at 102)
      "s1"
      "ann"
      "in_edit "
      (some "t1")
      triaged_once
      (transition_spec (at 102) "s1" "ann" "in_edit " "api" "" (some "t1") triaged_once).1
      in_edit_spec
unfolding program
transition_sound_example =
    transition_sound (at 102) "s1" "ann" "in_edit " "api" "" (some "t1") triaged_once in_edit_spec
      (transition_spec (at 102) "s1" "ann" "in_edit " "api" "" (some "t1") triaged_once).1.audit
      triaged_once-IsRecorded refl

expiry_rolled_back_example :
    (heartbeat_spec (at 130) "s1" "ann" "t1" "api" "" (pos 30) claimed
      ≡ (err lock_required, claimed))
    × (release_spec (at 130) "s1" "ann" "t1" "api" "" claimed ≡ (err lock_required, claimed))
unfolding program
expiry_rolled_back_example =
    expiry_rolled_back (at 130) "s1" "ann" "t1" "api" "" (pos 30) 30 claim_answer.0 claimed refl
      refl refl

list_specs_faithful_example :
    IsListing none (some "ann") claimed.specs (list_specs none (some "ann") claimed)
list_specs_faithful_example = list_specs_faithful none (some "ann") claimed
