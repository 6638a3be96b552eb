-- ===== src/GlobalLocks.antt =====
-- flowctl/locks.py: the lock table in SQLite and the methods of `SQLiteGlobalLockBackend`.
-- A time is its number of seconds: the ISO texts of `utc_now` have one format and one offset, so
-- SQLite's comparison of two of them is that of their seconds. Each method takes the `now` that it
-- reads from the clock; nothing is assumed about the order of these readings.
mod Expiry
pub mod Commands
pub mod WellFormed
pub mod Refinement
pub mod Lease
pub mod Outcomes
pub mod Listing
mod Tests
use softos_sdd_orchestrator.Prelude.{
  ℕ, suc, ◌+◌, String, Bool, true, false, Option, none, some, List, [], ◌∷◌, ◌++◌, map, ◌&&◌, ◌==◌,
  leb, if◌then◌else◌,
}
use softos_sdd_orchestrator.Prelude.Int.{ℤ, at_least_one}
use softos_sdd_orchestrator.Prelude.Result.{Result, ok, err}
use softos_sdd_orchestrator.Prelude.Text.{concat, or_default, text_leb}
use softos_sdd_orchestrator.Prelude.Sort.{sort}
use softos_sdd_orchestrator.Table.{select_where, insert, select, delete, update}
use softos_sdd_orchestrator.Table.Transaction.{transaction}

-- The keyword arguments owner_run_id, owner_feature, owner_slice.
pub record Owner : Type 0 where
  pub run_id : String
  pub feature : String
  pub slice : String

-- A row of `global_locks`.
pub record Lock : Type 0 where
  pub lock_name : String
  pub scope : String
  pub repo : String
  pub owner_run_id : String
  pub owner_feature : String
  pub owner_slice : String
  pub acquired_at : ℕ
  pub heartbeat_at : ℕ
  pub expires_at : ℕ

-- A row of `global_lock_events`.
pub record LockEvent : Type 0 where
  pub event_id : ℕ
  pub lock_name : String
  pub event_type : String
  pub actor_run_id : String
  pub feature_slug : String
  pub slice_name : String
  pub timestamp : ℕ
  pub details : String

-- The database: both tables, and the last id that AUTOINCREMENT gave.
pub record Db : Type 0 where
  pub locks : List Lock
  pub events : List LockEvent
  pub last_event_id : ℕ

-- `GlobalLockError` by its code, with the lock's name that its message holds.
pub data GlobalLockError : Type 0 where
  lock_not_found lock_not_owned : String → GlobalLockError

-- What `acquire` and `heartbeat` return: two fields, and the columns of a lock.
pub record Reply : Type 0 where
  pub granted : Bool
  pub status : String
  pub lock : Lock

-- What `release` returns: the status, and the lock's columns without its times.
pub data Released : Type 0 where
  missing : (lock_name : String) → Released
  released : (lock_name scope repo : String) → Owner → Released

abbrev pub lock_name_of : Lock → String
lock_name_of row = row.lock_name

abbrev pub empty : Db
empty = record { locks = []; events = []; last_event_id = 0 }

-- _expires_at
unfoldable pub expires_at : ℕ → ℤ → ℕ
expires_at now ttl_seconds = now + at_least_one ttl_seconds

-- _row_owned_by
unfoldable pub row_owned_by : Lock → Owner → Bool
row_owned_by row owner =
    row.owner_run_id == owner.run_id
    && (row.owner_feature == owner.feature && row.owner_slice == owner.slice)

-- _record_event_locked
unfoldable pub record_event_locked : String → String → Owner → ℕ → String → Db → Db
record_event_locked lock_name event_type actor timestamp details db = record db {
  events =
      insert
        (record {
          event_id = suc db.last_event_id;
          lock_name = lock_name;
          event_type = event_type;
          actor_run_id = actor.run_id;
          feature_slug = actor.feature;
          slice_name = actor.slice;
          timestamp = timestamp;
          details = details;
        })
        db.events;
  last_event_id = suc db.last_event_id;
}

-- _get_lock_locked
unfoldable pub get_lock_locked : String → Db → Option Lock
get_lock_locked lock_name db = select lock_name_of lock_name db.locks

abbrev pub is_stale : ℕ → Lock → Bool
is_stale now row = leb row.expires_at now

abbrev pub owner_of : Lock → Owner
owner_of row = record {
  run_id = row.owner_run_id;
  feature = row.owner_feature;
  slice = row.owner_slice;
}

-- The loop of `_expire_stale_locked` over the rows that its SELECT found.
unfoldable pub expire_rows : ℕ → List Lock → Db → Db
expire_rows now [] db = db
expire_rows now (row ∷ rows) db = expire_rows now rows (
    record_event_locked row.lock_name "expire" (owner_of row) now "ttl-expired"
      (record db { locks = delete lock_name_of row.lock_name db.locks }))

-- _expire_stale_locked
unfoldable pub expire_stale_locked : ℕ → Db → List Lock × Db
expire_stale_locked now db =
    let rows = select_where (is_stale now) db.locks in (rows, expire_rows now rows db)

-- expire_stale
unfoldable pub expire_stale : ℕ → Db → List Lock × Db
expire_stale now db = expire_stale_locked now db

-- get_lock
unfoldable pub get_lock : String → Db → Option Lock
get_lock lock_name db = get_lock_locked lock_name db

-- The UPDATE of a renewal in `acquire`, and the one of `heartbeat`.
abbrev pub renew : String → String → ℕ → ℕ → Lock → Lock
renew scope repo now expires row = record row {
  scope = scope;
  repo = repo;
  heartbeat_at = now;
  expires_at = expires;
}

abbrev pub beat : ℕ → ℕ → Lock → Lock
beat now expires row = record row { heartbeat_at = now; expires_at = expires }

abbrev pub new_lock : String → String → String → Owner → ℕ → ℕ → Lock
new_lock lock_name scope repo owner now expires = record {
  lock_name = lock_name;
  scope = scope;
  repo = repo;
  owner_run_id = owner.run_id;
  owner_feature = owner.feature;
  owner_slice = owner.slice;
  acquired_at = now;
  heartbeat_at = now;
  expires_at = expires;
}

abbrev pub owned_by_text : Lock → String
owned_by_text row =
    concat ("owned-by:" ∷ row.owner_run_id ∷ ":" ∷ row.owner_feature ∷ ":" ∷ row.owner_slice ∷ [])

-- What `acquire` does with the row that it finds, when the stale locks are gone.
unfoldable pub acquire_row :
    String → String → String → Owner → ℕ → ℕ → String → Option Lock → Db → Reply × Db
acquire_row lock_name scope repo owner now expires details none db =
    let row = new_lock lock_name scope repo owner now expires in
    (
      record { granted = true; status = "acquired"; lock = row },
      record_event_locked lock_name "acquire" owner now (or_default details "new-lock")
          (record db { locks = insert row db.locks }),
    )
acquire_row lock_name scope repo owner now expires details (some row) db =
    if row_owned_by row owner
    then (
      record { granted = true; status = "renewed"; lock = renew scope repo now expires row },
      record_event_locked lock_name "heartbeat-renew" owner now (or_default details "owner-renew")
          (record db {
            locks = update lock_name_of lock_name (renew scope repo now expires) db.locks;
          }),
    )
    else (
      record { granted = false; status = "denied"; lock = row },
      record_event_locked lock_name "denied" owner now (owned_by_text row) db,
    )

unfoldable pub acquire : String → String → String → Owner → ℤ → String → ℕ → Db → Reply × Db
unfolding acquire_row
acquire lock_name scope repo owner ttl_seconds details now db =
    let expired = (expire_stale_locked now db).1 in
    acquire_row lock_name scope repo owner now (expires_at now ttl_seconds) details
      (get_lock_locked lock_name expired) expired

-- The body of `heartbeat`, in its transaction.
unfoldable pub heartbeat_row :
    String → Owner → ℕ → ℕ → String → Option Lock → Db → Result GlobalLockError (Reply × Db)
heartbeat_row lock_name owner now expires details none db = err (lock_not_found lock_name)
heartbeat_row lock_name owner now expires details (some row) db =
    if row_owned_by row owner
    then ok (
      record { granted = true; status = "heartbeat"; lock = beat now expires row },
      record_event_locked lock_name "heartbeat" owner now (or_default details "heartbeat")
          (record db { locks = update lock_name_of lock_name (beat now expires) db.locks }),
    )
    else err (lock_not_owned lock_name)

unfoldable pub heartbeat : String → Owner → ℤ → String → ℕ → Db → Result GlobalLockError Reply × Db
unfolding heartbeat_row
heartbeat lock_name owner ttl_seconds details now = transaction λ db.
    let expired = (expire_stale_locked now db).1 in
    heartbeat_row lock_name owner now (expires_at now ttl_seconds) details
      (get_lock_locked lock_name expired) expired

unfoldable pub release_row :
    String → Owner → ℕ → String → Option Lock → Db → Result GlobalLockError (Released × Db)
release_row lock_name owner now details none db = ok (missing lock_name, db)
release_row lock_name owner now details (some row) db =
    if row_owned_by row owner
    then ok (
      released lock_name row.scope row.repo (owner_of row),
      record_event_locked lock_name "release" owner now (or_default details "release")
          (record db { locks = delete lock_name_of lock_name db.locks }),
    )
    else err (lock_not_owned lock_name)

-- Unlike the other methods, `release` expires nothing first.
unfoldable pub release : String → Owner → String → ℕ → Db → Result GlobalLockError Released × Db
unfolding release_row
release lock_name owner details now =
    transaction λ db. release_row lock_name owner now details (get_lock_locked lock_name db) db

abbrev pub name_leb : Lock → Lock → Bool
name_leb a b = text_leb a.lock_name b.lock_name

abbrev pub id_leb : LockEvent → LockEvent → Bool
id_leb a b = leb a.event_id b.event_id

-- list_locks
unfoldable pub list_locks : Db → List Lock
list_locks db = sort name_leb db.locks

-- list_events
unfoldable pub list_events : Db → List LockEvent
list_events db = sort id_leb db.events
