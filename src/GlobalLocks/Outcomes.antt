-- ===== src/GlobalLocks/Outcomes.antt =====
-- What `heartbeat` and `release` answer and raise, on every branch.
use softos_sdd_orchestrator.Prelude.{
  ℕ, String, ◌≡◌, refl, Option, none, some, true, if◌then◌else◌, Bool-cases, inl, inr, eq_refl,
}
use softos_sdd_orchestrator.Prelude.Int.{ℤ}
use softos_sdd_orchestrator.Prelude.Result.{Result, ok, err}
use softos_sdd_orchestrator.Table.Laws.{select-delete}
use softos_sdd_orchestrator.Table.Transaction.{settle, transaction}
use softos_sdd_orchestrator.GlobalLocks
use softos_sdd_orchestrator.GlobalLocks.{
  Owner, Lock, Db, GlobalLockError, lock_not_found, lock_not_owned, Reply, Released, missing,
  released, row_owned_by, owner_of, beat, expires_at, get_lock_locked, expire_stale_locked,
  heartbeat_row, release_row, record_event_locked, lock_name_of,
}
use softos_sdd_orchestrator.GlobalLocks.Expiry.{get_lock-expire_stale}
use softos_sdd_orchestrator.GlobalLocks.WellFormed.{IsValid}
use softos_sdd_orchestrator.GlobalLocks.Refinement.{view}

-- The answer of a heartbeat, and that a refused one has changed nothing, its expiries included.
abbrev pub HeartbeatOutcome :
    String → Owner → ℕ → ℕ → Db → Option Lock → Result GlobalLockError Reply × Db → Type 0
HeartbeatOutcome name owner now expires db none r = r ≡ (err (lock_not_found name), db)
HeartbeatOutcome name owner now expires db (some row) r =
    if row_owned_by row owner
    then (r.0 ≡ ok (record { granted = true; status = "heartbeat"; lock = beat now expires row }))
    else (r ≡ (err (lock_not_owned name), db))

heartbeat_row-outcome :
    (name : String) (owner : Owner) (now expires : ℕ) (details : String) (db expired : Db)
    (row : Option Lock)
    → HeartbeatOutcome name owner now expires db row
        (settle db (heartbeat_row name owner now expires details row expired))
unfolding heartbeat_row
heartbeat_row-outcome name owner now expires details db expired none = refl
heartbeat_row-outcome name owner now expires details db expired (some row) =
    elim (Bool-cases (row_owned_by row owner)) [
      | inl mine ↦ rw mine refl
      | inr taken ↦ rw taken refl
    ]

-- A heartbeat raises LOCK_NOT_FOUND exactly when no unexpired lock has the name, LOCK_NOT_OWNED
-- exactly when another owner holds it, and else answers with the lock beaten to `now`. When it
-- raises, the whole database is as before: the expiries of stale locks are rolled back too.
pub heartbeat_outcome :
    (name : String) (owner : Owner) (ttl : ℤ) (details : String) (now : ℕ) (db : Db)
    → IsValid db
    → HeartbeatOutcome name owner now
        (expires_at now ttl)
        db
        (view now db name)
        (GlobalLocks.heartbeat name owner ttl details now db)
unfolding GlobalLocks.heartbeat transaction
heartbeat_outcome name owner ttl details now db v =
    rw (← get_lock-expire_stale now db v.unique name) (
      heartbeat_row-outcome name owner now (expires_at now ttl) details db _
        (get_lock_locked name (expire_stale_locked now db).1))

-- The answer of a release. It looks at the stored row, stale or not.
abbrev pub ReleaseOutcome :
    String → Owner → Db → Option Lock → Result GlobalLockError Released × Db → Type 0
ReleaseOutcome name owner db none r = r ≡ (ok (missing name), db)
ReleaseOutcome name owner db (some row) r =
    if row_owned_by row owner
    then ((r.0 ≡ ok (released name row.scope row.repo (owner_of row)))
        × (get_lock_locked name r.1 ≡ none))
    else (r ≡ (err (lock_not_owned name), db))

release_row-outcome :
    (name : String) (owner : Owner) (now : ℕ) (details : String) (db : Db) (row : Option Lock)
    → get_lock_locked name db ≡ row
    → ReleaseOutcome name owner db row (settle db (release_row name owner now details row db))
unfolding release_row
release_row-outcome name owner now details db none found = refl
release_row-outcome name owner now details db (some row) found =
    elim (Bool-cases (row_owned_by row owner)) [
      | inl mine ↦
          rw mine
            (refl, unfold get_lock_locked record_event_locked in rw select-delete (rw eq_refl))
      | inr taken ↦ rw taken refl
    ]

-- A release of a name that no row has answers `missing` and changes nothing; the owner's release
-- answers with the lock's columns and takes the row away; anyone else's raises LOCK_NOT_OWNED and
-- changes nothing. A stale row counts here as much as a fresh one.
pub release_outcome :
    (name : String) (owner : Owner) (details : String) (now : ℕ) (db : Db)
    → ReleaseOutcome name owner db
        (get_lock_locked name db)
        (GlobalLocks.release name owner details now db)
unfolding GlobalLocks.release transaction
release_outcome name owner details now db =
    release_row-outcome name owner now details db (get_lock_locked name db) refl
