-- ===== src/GlobalLocks/WellFormed.antt =====
-- The invariant of the lock database, and that every call keeps it and only adds to the log.
use softos_sdd_orchestrator.Prelude.{
  ℕ, suc, String, ◌≡◌, refl, List, [], ◌∷◌, ◌++◌, arith, Option, none, some, Bool-cases, inl, inr,
}
use softos_sdd_orchestrator.Prelude.Lists.{Grows, Grows-refl, Grows-trans}
use softos_sdd_orchestrator.Prelude.Int.{ℤ}
use softos_sdd_orchestrator.Table.{insert, delete}
use softos_sdd_orchestrator.Table.Laws.{IsUnique, insert-IsUnique, update-IsUnique, delete-IsUnique}
use softos_sdd_orchestrator.Table.Transaction.{
  OnCommit, OnCommit-map, commit, rollback, transaction_rule,
}
use softos_sdd_orchestrator.GlobalLocks
use softos_sdd_orchestrator.GlobalLocks.{
  Owner, Lock, LockEvent, Db, empty, lock_name_of, is_stale, record_event_locked, get_lock_locked,
  expire_rows, expire_stale_locked, acquire_row, heartbeat_row, release_row, row_owned_by,
}
use softos_sdd_orchestrator.GlobalLocks.Commands.{Call, run, run_all}

-- The events carry the ids `start + 1`, `start + 2`, … up to `last`.
abbrev pub IsNumbered : ℕ → List LockEvent → ℕ → Type 0
IsNumbered start [] last = last ≡ start
IsNumbered start (e ∷ es) last = (e.event_id ≡ suc start) × IsNumbered (suc start) es last

-- One row for a name, as the PRIMARY KEY demands, and consecutive event ids.
pub record IsValid (db : Db) : Type 0 where
  pub unique : IsUnique lock_name_of db.locks
  pub numbered : IsNumbered 0 db.events db.last_event_id

IsNumbered-snoc :
    (start last : ℕ) (es : List LockEvent) (e : LockEvent)
    → e.event_id ≡ suc last
    → IsNumbered start es last
    → IsNumbered start (es ++ e ∷ []) (suc last)
IsNumbered-snoc start last [] e h n = omega arith
IsNumbered-snoc start last (x ∷ es) e h n = (n.0, IsNumbered-snoc (suc start) last es e h n.1)

-- What an operation gives: a valid database, whose log has the old one as its beginning.
pub record Advances (db db' : Db) : Type 0 where
  pub valid : IsValid db'
  pub logged : Grows db.events db'.events

Advances-refl : {db : Db} → IsValid db → Advances db db
Advances-refl {db} v = record { valid = v; logged = Grows-refl db.events }

Advances-trans : {a b c : Db} → Advances a b → Advances b c → Advances a c
Advances-trans p q = record { valid = q.valid; logged = Grows-trans _ _ _ p.logged q.logged }

record_event-Advances :
    (name event : String) (actor : Owner) (now : ℕ) (details : String) (db : Db) (locks : List Lock)
    → IsValid db
    → IsUnique lock_name_of locks
    → Advances db (record_event_locked name event actor now details (record db { locks = locks }))
unfolding record_event_locked insert
record_event-Advances name event actor now details db locks v u = record {
  valid = record {
    unique = u;
    numbered = IsNumbered-snoc 0 db.last_event_id db.events _ refl v.numbered;
  };
  logged = (_, refl);
}

expire_rows-Advances :
    (now : ℕ) (rows : List Lock) (db : Db) → IsValid db → Advances db (expire_rows now rows db)
unfolding expire_rows
expire_rows-Advances now [] db v = Advances-refl v
expire_rows-Advances now (row ∷ rows) db v =
    let first =
      record_event-Advances row.lock_name "expire" (GlobalLocks.owner_of row) now "ttl-expired" db
        (delete lock_name_of row.lock_name db.locks) v
        (delete-IsUnique lock_name_of row.lock_name db.locks v.unique) in
    Advances-trans first (expire_rows-Advances now rows _ first.valid)

pub expire_stale-Advances :
    (now : ℕ) (db : Db) → IsValid db → Advances db (expire_stale_locked now db).1
unfolding expire_stale_locked
expire_stale-Advances now db v = expire_rows-Advances now _ db v

acquire_row-Advances :
    (name scope repo : String) (owner : Owner) (now expires : ℕ) (details : String)
    (row : Option Lock) (db : Db)
    → get_lock_locked name db ≡ row
    → IsValid db
    → Advances db (acquire_row name scope repo owner now expires details row db).1
unfolding acquire_row get_lock_locked
acquire_row-Advances name scope repo owner now expires details none db absent v =
    record_event-Advances name "acquire" owner now _ db _ v
      (insert-IsUnique lock_name_of _ db.locks absent v.unique)
acquire_row-Advances name scope repo owner now expires details (some row) db found v =
    elim (Bool-cases (row_owned_by row owner)) [
      | inl mine ↦ rw mine (
          record_event-Advances name "heartbeat-renew" owner now _ db _ v
            (update-IsUnique lock_name_of name _ db.locks (λ r. refl) v.unique))
      | inr taken ↦
          rw taken (record_event-Advances name "denied" owner now _ db db.locks v v.unique)
    ]

pub acquire-Advances :
    (name scope repo : String) (owner : Owner) (ttl : ℤ) (details : String) (now : ℕ) (db : Db)
    → IsValid db
    → Advances db (GlobalLocks.acquire name scope repo owner ttl details now db).1
unfolding GlobalLocks.acquire
acquire-Advances name scope repo owner ttl details now db v =
    let first = expire_stale-Advances now db v in
    Advances-trans first
      (acquire_row-Advances name scope repo owner now _ details _ _ refl first.valid)

heartbeat_row-Advances :
    (name : String) (owner : Owner) (now expires : ℕ) (details : String) (row : Option Lock)
    (db : Db)
    → IsValid db
    → OnCommit (Advances db) (heartbeat_row name owner now expires details row db)
unfolding heartbeat_row
heartbeat_row-Advances name owner now expires details none db v = rollback
heartbeat_row-Advances name owner now expires details (some row) db v =
    elim (Bool-cases (row_owned_by row owner)) [
      | inl mine ↦ rw mine (
          commit (
            record_event-Advances name "heartbeat" owner now _ db _ v
              (update-IsUnique lock_name_of name _ db.locks (λ r. refl) v.unique)))
      | inr taken ↦ rw taken rollback
    ]

heartbeat-Advances :
    (name : String) (owner : Owner) (ttl : ℤ) (details : String) (now : ℕ) (db : Db)
    → IsValid db
    → Advances db (GlobalLocks.heartbeat name owner ttl details now db).1
unfolding GlobalLocks.heartbeat
heartbeat-Advances name owner ttl details now db v =
    let first = expire_stale-Advances now db v in
    transaction_rule {P = Advances db} _ (Advances-refl v) (
      OnCommit-map (λ db'. Advances-trans first)
        (heartbeat_row-Advances name owner now _ details _ _ first.valid))

release_row-Advances :
    (name : String) (owner : Owner) (now : ℕ) (details : String) (row : Option Lock) (db : Db)
    → IsValid db
    → OnCommit (Advances db) (release_row name owner now details row db)
unfolding release_row
release_row-Advances name owner now details none db v = commit (Advances-refl v)
release_row-Advances name owner now details (some row) db v =
    elim (Bool-cases (row_owned_by row owner)) [
      | inl mine ↦ rw mine (
          commit (
            record_event-Advances name "release" owner now _ db _ v
              (delete-IsUnique lock_name_of name db.locks v.unique)))
      | inr taken ↦ rw taken rollback
    ]

release-Advances :
    (name : String) (owner : Owner) (details : String) (now : ℕ) (db : Db)
    → IsValid db
    → Advances db (GlobalLocks.release name owner details now db).1
unfolding GlobalLocks.release
release-Advances name owner details now db v =
    transaction_rule {P = Advances db} _ (Advances-refl v)
      (release_row-Advances name owner now details _ db v)

pub run-Advances : (now : ℕ) (call : Call) (db : Db) → IsValid db → Advances db (run now call db)
unfolding run GlobalLocks.expire_stale
run-Advances now (Call.acquire name scope repo owner ttl details) db v =
    acquire-Advances name scope repo owner ttl details now db v
run-Advances now (Call.heartbeat name owner ttl details) db v =
    heartbeat-Advances name owner ttl details now db v
run-Advances now (Call.release name owner details) db v =
    release-Advances name owner details now db v
run-Advances now Call.expire_stale db v = expire_stale-Advances now db v

-- Whatever calls are made, raising or not and at whatever clock readings, a valid database stays
-- valid (one row to a lock's name, event ids 1, 2, 3, … without a gap), and the event log before
-- the calls is the beginning of the one after them.
pub run_all-Advances :
    (calls : List (ℕ × Call)) (db : Db) → IsValid db → Advances db (run_all calls db)
unfolding run_all
run_all-Advances [] db v = Advances-refl v
run_all-Advances ((now, call) ∷ calls) db v =
    let first = run-Advances now call db v in
    Advances-trans first (run_all-Advances calls (run now call db) first.valid)

pub empty-IsValid : IsValid empty
empty-IsValid = record { unique = tt; numbered = refl }
