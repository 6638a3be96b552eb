-- ===== src/GlobalLocks/Commands.antt =====
-- The calls of `SQLiteGlobalLockBackend` as data, and sequences of them. The mutex and
-- BEGIN IMMEDIATE let one call after the other at the database, so any run of threads and
-- processes is such a sequence, with the clock readings in any order.
use softos_sdd_orchestrator.Prelude.{ℕ, String, List, [], ◌∷◌}
use softos_sdd_orchestrator.Prelude.Int.{ℤ}
use softos_sdd_orchestrator.GlobalLocks
use softos_sdd_orchestrator.GlobalLocks.{Owner, Db}

pub data Call : Type 0 where
  acquire : (lock_name scope repo : String) → Owner → ℤ → (details : String) → Call
  heartbeat : (lock_name : String) → Owner → ℤ → (details : String) → Call
  release : (lock_name : String) → Owner → (details : String) → Call
  expire_stale : Call

-- The database after a call, which may have raised.
unfoldable pub run : ℕ → Call → Db → Db
run now (acquire name scope repo owner ttl details) db =
    (GlobalLocks.acquire name scope repo owner ttl details now db).1
run now (heartbeat name owner ttl details) db =
    (GlobalLocks.heartbeat name owner ttl details now db).1
run now (release name owner details) db = (GlobalLocks.release name owner details now db).1
run now expire_stale db = (GlobalLocks.expire_stale now db).1

unfoldable pub run_all : List (ℕ × Call) → Db → Db
run_all [] db = db
run_all ((now, call) ∷ calls) db = run_all calls (run now call db)
