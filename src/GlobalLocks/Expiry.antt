-- ===== src/GlobalLocks/Expiry.antt =====
-- What `_expire_stale_locked` leaves: locks that were not stale, under unique names.
use softos_sdd_orchestrator.Prelude.{ℕ, String, ◌≡◌, refl, ap, ◌∙◌, Option, List, [], ◌∷◌, map}
use softos_sdd_orchestrator.Table.{select, delete_all}
use softos_sdd_orchestrator.Table.Laws.{IsUnique}
use softos_sdd_orchestrator.Table.Purge.{reject, select-purge, delete_all-IsUnique}
use softos_sdd_orchestrator.GlobalLocks.{
  Lock, Db, lock_name_of, is_stale, record_event_locked, get_lock_locked, expire_rows,
  expire_stale_locked,
}

pub locks-expire_rows :
    (now : ℕ) (rows : List Lock) (db : Db)
    → (expire_rows now rows db).locks ≡ delete_all lock_name_of (map lock_name_of rows) db.locks
unfolding expire_rows record_event_locked delete_all
locks-expire_rows now [] db = refl
locks-expire_rows now (row ∷ rows) db = locks-expire_rows now rows _

-- The lock that counts at a time: a stale one counts as none.
abbrev pub live : ℕ → Option Lock → Option Lock
live now = reject (is_stale now)

module _ (now : ℕ) (db : Db) (unique : IsUnique lock_name_of db.locks) where
  pub get_lock-expire_stale :
      (name : String)
      → get_lock_locked name (expire_stale_locked now db).1 ≡ live now (get_lock_locked name db)
  unfolding get_lock_locked expire_stale_locked
  get_lock-expire_stale name =
      ap (select lock_name_of name) (locks-expire_rows now _ db)
      ∙ select-purge lock_name_of (is_stale now) name db.locks unique

  pub expire_stale-IsUnique : IsUnique lock_name_of (expire_stale_locked now db).1.locks
  unfolding expire_stale_locked
  expire_stale-IsUnique = rw locks-expire_rows (delete_all-IsUnique lock_name_of _ db.locks unique)
