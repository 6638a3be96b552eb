-- ===== src/GlobalLocks/Lease.antt =====
-- A lease stands until it expires, whatever the others do, and is held by one owner at a time.
use softos_sdd_orchestrator.Prelude.{
  ℕ, ◌<◌, String, ◌≡◌, refl, ◌⊎◌, Option, none, some, false, arith, ◌==◌, eq_refl, List, [], ◌∷◌,
  ◌∙◌,
}
use softos_sdd_orchestrator.Prelude.Int.{ℤ}
use softos_sdd_orchestrator.Prelude.Lists.{All}
use softos_sdd_orchestrator.GlobalLocks
use softos_sdd_orchestrator.GlobalLocks.{
  Owner, Lock, Db, row_owned_by, get_lock_locked, acquire_row, expire_stale_locked,
}
use softos_sdd_orchestrator.GlobalLocks.Expiry.{live, get_lock-expire_stale}
use softos_sdd_orchestrator.GlobalLocks.WellFormed.{
  IsValid, acquire-Advances, run-Advances, run_all-Advances,
}
use softos_sdd_orchestrator.GlobalLocks.Refinement.{get-acquire_row, view, step, run_refines}
use softos_sdd_orchestrator.GlobalLocks.Commands.{Call, run, run_all}

-- A call that does not act for the holder of `row` on the lock `name`.
abbrev pub Spares : String → Lock → Call → Type 0
Spares name row (Call.acquire k scope repo owner ttl details) =
    ((k == name) ≡ false) ⊎ (row_owned_by row owner ≡ false)
Spares name row (Call.heartbeat k owner ttl details) =
    ((k == name) ≡ false) ⊎ (row_owned_by row owner ≡ false)
Spares name row (Call.release k owner details) =
    ((k == name) ≡ false) ⊎ (row_owned_by row owner ≡ false)
Spares name row Call.expire_stale = Unit

-- Such a call, made before the lease of `row` ends.
abbrev pub IsForeign : String → Lock → ℕ × Call → Type 0
IsForeign name row (now, call) = (now < row.expires_at) × Spares name row call

live-some : (now : ℕ) (o : Option Lock) (row : Lock) → live now o ≡ some row → o ≡ some row
live-some now o row h = ground arith

live-fresh : (now : ℕ) (row : Lock) → now < row.expires_at → live now (some row) ≡ some row
live-fresh now row h = ground arith

step-Spares :
    (now : ℕ) (name : String) (row : Lock) (call : Call) (leases : String → Option Lock)
    → Spares name row call
    → leases name ≡ some row
    → step now call leases name ≡ some row
step-Spares now name row (Call.acquire k scope repo owner ttl details) leases h e = ground arith
step-Spares now name row (Call.heartbeat k owner ttl details) leases h e = ground arith
step-Spares now name row (Call.release k owner details) leases h e = ground arith
step-Spares now name row Call.expire_stale leases h e = e

run_keeps :
    (name : String) (row : Lock) (now : ℕ) (call : Call) (db : Db)
    → IsForeign name row (now, call)
    → IsValid db
    → get_lock_locked name db ≡ some row
    → get_lock_locked name (run now call db) ≡ some row
run_keeps name row now call db f v e = live-some now _ row (
    run_refines now call db name v
    ∙ step-Spares now name row call (view now db) f.1 (rw e (live-fresh now row f.0)))

-- A lock's row, its owner and its end included, is left as it is by any sequence of calls that
-- are made before it expires and are not the holder's calls on this lock.
pub run_all_keeps :
    (name : String) (row : Lock) (calls : List (ℕ × Call)) (db : Db)
    → All (IsForeign name row) calls
    → IsValid db
    → get_lock_locked name db ≡ some row
    → get_lock_locked name (run_all calls db) ≡ some row
unfolding run_all
run_all_keeps name row [] db f v e = e
run_all_keeps name row ((now, call) ∷ calls) db f v e =
    run_all_keeps name row calls (run now call db) f.1 (run-Advances now call db v).valid
      (run_keeps name row now call db f.0 v e)

acquire_row-lock :
    (name scope repo : String) (owner : Owner) (now expires : ℕ) (details : String)
    (row : Option Lock) (db : Db)
    → get_lock_locked name db ≡ row
    → get_lock_locked name (acquire_row name scope repo owner now expires details row db).1
      ≡ some (acquire_row name scope repo owner now expires details row db).0.lock
unfolding acquire_row
acquire_row-lock name scope repo owner now expires details none db found =
    get-acquire_row name scope repo owner now expires details none db name found ∙ rw eq_refl
acquire_row-lock name scope repo owner now expires details (some row) db found =
    get-acquire_row name scope repo owner now expires details (some row) db name found
    ∙ rw eq_refl (ground arith)

-- The lock that `acquire` reports is the one that the table holds afterwards.
acquire-lock :
    (name scope repo : String) (owner : Owner) (ttl : ℤ) (details : String) (now : ℕ) (db : Db)
    → get_lock_locked name (GlobalLocks.acquire name scope repo owner ttl details now db).1
      ≡ some (GlobalLocks.acquire name scope repo owner ttl details now db).0.lock
unfolding GlobalLocks.acquire
acquire-lock name scope repo owner ttl details now db =
    acquire_row-lock name scope repo owner now _ details _ _ refl

acquire_denied :
    (name scope repo : String) (owner : Owner) (ttl : ℤ) (details : String) (now : ℕ) (db : Db)
    (row : Lock)
    → IsValid db
    → get_lock_locked name db ≡ some row
    → now < row.expires_at
    → row_owned_by row owner ≡ false
    → (GlobalLocks.acquire name scope repo owner ttl details now db).0
      ≡ record { granted = false; status = "denied"; lock = row }
unfolding GlobalLocks.acquire
acquire_denied name scope repo owner ttl details now db row v e fresh other =
    rw (get_lock-expire_stale now db v.unique name, e, live-fresh now row fresh, acquire_row)
      (rw other)

-- Mutual exclusion: when `acquire` has reported a lock (granted to its caller), then after any calls
-- by others before the end of that lease, another owner's `acquire` of the name before that end is
-- denied, and is shown the very lock that stands.
pub acquire_excludes :
    (name scope repo : String) (owner : Owner) (ttl : ℤ) (details : String) (now : ℕ) (db : Db)
    (calls : List (ℕ × Call)) (scope' repo' : String) (owner' : Owner) (ttl' : ℤ)
    (details' : String) (now' : ℕ)
    → IsValid db
    → All
        (IsForeign name (GlobalLocks.acquire name scope repo owner ttl details now db).0.lock)
        calls
    → now' < (GlobalLocks.acquire name scope repo owner ttl details now db).0.lock.expires_at
    → row_owned_by (GlobalLocks.acquire name scope repo owner ttl details now db).0.lock owner'
      ≡ false
    → (GlobalLocks.acquire name scope' repo' owner' ttl' details' now'
        (run_all calls (GlobalLocks.acquire name scope repo owner ttl details now db).1)).0
      ≡ record {
        granted = false;
        status = "denied";
        lock = (GlobalLocks.acquire name scope repo owner ttl details now db).0.lock;
      }
acquire_excludes name scope repo owner ttl details now db calls scope' repo' owner' ttl' details'
      now' v f fresh other =
    let (reply, db') = GlobalLocks.acquire name scope repo owner ttl details now db in
    let v' = (acquire-Advances name scope repo owner ttl details now db v).valid in
    acquire_denied name scope' repo' owner' ttl' details' now' (run_all calls db') reply.lock
      (run_all-Advances calls db' v').valid
      (run_all_keeps name reply.lock calls db' f v'
        (acquire-lock name scope repo owner ttl details now db))
      fresh other
