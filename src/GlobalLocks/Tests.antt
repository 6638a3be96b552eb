-- ===== src/GlobalLocks/Tests.antt =====
-- Runs of the lock backend on small databases, and the theorems at concrete inputs.
use mathlib.Core.List.{Perm}
use softos_sdd_orchestrator.Prelude.Sort.{IsSorted}
use softos_sdd_orchestrator.Prelude.{ℕ, ◌≡◌, refl, false, some, List, [], ◌∷◌, inl, inr, arith}
use softos_sdd_orchestrator.Prelude.Int.{pos, at_least_one}
use softos_sdd_orchestrator.Prelude.Text.{concat}
use softos_sdd_orchestrator.Prelude.Result.{err}
use softos_sdd_orchestrator.Table.{select_where, insert, select, delete, update}
use softos_sdd_orchestrator.Table.Transaction.{transaction}
use softos_sdd_orchestrator.GlobalLocks
use softos_sdd_orchestrator.GlobalLocks.{
  Owner, Lock, Db, empty, expires_at, row_owned_by, record_event_locked, get_lock_locked, get_lock,
  expire_rows, expire_stale_locked, new_lock, lock_not_owned, list_locks, list_events, name_leb,
}
use softos_sdd_orchestrator.GlobalLocks.Commands.{Call, run, run_all}
use softos_sdd_orchestrator.GlobalLocks.WellFormed.{Advances, empty-IsValid, run_all-Advances}
use softos_sdd_orchestrator.GlobalLocks.Refinement.{view, step, run_refines}
use softos_sdd_orchestrator.GlobalLocks.Lease.{acquire_excludes}
use softos_sdd_orchestrator.GlobalLocks.Listing.{listings_faithful}
use softos_sdd_orchestrator.GlobalLocks.Outcomes.{
  HeartbeatOutcome, ReleaseOutcome, heartbeat_outcome, release_outcome,
}

abbrev ann : Owner
ann = record { run_id = "r1"; feature = "f"; slice = "api" }

abbrev bob : Owner
bob = record { run_id = "r2"; feature = "f"; slice = "web" }

program : Unit {0}
unfolding at_least_one concat select_where insert select delete update transaction expires_at
    row_owned_by record_event_locked get_lock_locked get_lock expire_rows expire_stale_locked
    GlobalLocks.acquire GlobalLocks.heartbeat GlobalLocks.release GlobalLocks.expire_stale run
    run_all
program = tt

abbrev held : Lock
held = new_lock "repo:x" "repo" "x" ann 100 130

abbrev taken : Db
taken = (GlobalLocks.acquire "repo:x" "repo" "x" ann (pos 30) "" 100 empty).1

abbrev others : List (ℕ × Call)
others =
    (110, Call.release "repo:x" bob "")
    ∷ (120, Call.expire_stale)
    ∷ (125, Call.acquire "repo:y" "repo" "y" ann (pos 1) "")
    ∷ []

taken_lock : get_lock "repo:x" taken ≡ some held
unfolding program
taken_lock = refl

-- The lease ends at 130, and is another's then.
taken_over :
    get_lock "repo:x" (GlobalLocks.acquire "repo:x" "repo" "x" bob (pos 5) "" 130 taken).1
    ≡ some (new_lock "repo:x" "repo" "x" bob 130 135)
unfolding program
taken_over = refl

stolen : (GlobalLocks.release "repo:x" bob "" 110 taken).0 ≡ err (lock_not_owned "repo:x")
unfolding program
stolen = refl

run_all-Advances_example : Advances empty (run_all others empty)
run_all-Advances_example = run_all-Advances others empty empty-IsValid

run_refines_example :
    view 100 (run 100 (Call.acquire "repo:x" "repo" "x" ann (pos 30) "") empty) "repo:x"
    ≡ step 100 (Call.acquire "repo:x" "repo" "x" ann (pos 30) "") (view 100 empty) "repo:x"
run_refines_example =
    run_refines 100 (Call.acquire "repo:x" "repo" "x" ann (pos 30) "") empty "repo:x" empty-IsValid

acquire_excludes_example :
    (GlobalLocks.acquire "repo:x" "repo" "x" bob (pos 5) "" 129 (run_all others taken)).0
    ≡ record { granted = false; status = "denied"; lock = held }
unfolding program
acquire_excludes_example =
    acquire_excludes "repo:x" "repo" "x" ann (pos 30) "" 100 empty others "repo" "x" bob (pos 5) ""
      129 empty-IsValid
      ((omega arith, inr refl), ((omega arith, tt), ((omega arith, inl refl), tt))) (omega arith)
      refl

heartbeat_outcome_example :
    HeartbeatOutcome "repo:x" bob 110 115 empty
      (view 110 empty "repo:x")
      (GlobalLocks.heartbeat "repo:x" bob (pos 5) "" 110 empty)
unfolding program
heartbeat_outcome_example = heartbeat_outcome "repo:x" bob (pos 5) "" 110 empty empty-IsValid

release_outcome_example :
    ReleaseOutcome "repo:x" bob taken
      (get_lock_locked "repo:x" taken)
      (GlobalLocks.release "repo:x" bob "" 110 taken)
release_outcome_example = release_outcome "repo:x" bob "" 110 taken

listings_faithful_example :
    Perm (list_locks (run_all others empty)) (run_all others empty).locks
    × IsSorted name_leb (list_locks (run_all others empty))
    × (list_events (run_all others empty) ≡ (run_all others empty).events)
listings_faithful_example =
    listings_faithful (run_all others empty) (run_all-Advances others empty empty-IsValid).valid
