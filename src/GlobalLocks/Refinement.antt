-- ===== src/GlobalLocks/Refinement.antt =====
-- The lock table as a map of leases: what the calls do to the locks that have not expired.
use mathlib.Core.Option
use softos_sdd_orchestrator.Prelude.{
  ℕ, ◌<◌, String, ◌≡◌, refl, ◌∙◌, ap, Option, none, some, Bool-cases, inl, inr, arith, ◌==◌, eq_iff,
  if◌then◌else◌,
}
use softos_sdd_orchestrator.Prelude.Int.{ℤ, at_least_one-pos}
use softos_sdd_orchestrator.Prelude.Text.{or_default}
use softos_sdd_orchestrator.Table.{update}
use softos_sdd_orchestrator.Table.Laws.{select-insert, select-update, select-delete}
use softos_sdd_orchestrator.Table.Transaction.{settle, transaction}
use softos_sdd_orchestrator.Table.Purge.{reject}
use softos_sdd_orchestrator.GlobalLocks
use softos_sdd_orchestrator.GlobalLocks.{
  Owner, Lock, Db, lock_name_of, is_stale, expires_at, row_owned_by, record_event_locked,
  get_lock_locked, expire_stale_locked, new_lock, renew, beat, acquire_row, heartbeat_row,
  release_row,
}
use softos_sdd_orchestrator.GlobalLocks.Expiry.{live, get_lock-expire_stale}
use softos_sdd_orchestrator.GlobalLocks.WellFormed.{IsValid}
use softos_sdd_orchestrator.GlobalLocks.Commands.{Call, run}

-- Which lease stands after a request: the first comer's, or the holder's renewed.
abbrev pub winner : String → String → String → Owner → ℕ → ℕ → Option Lock → Lock
winner name scope repo owner now expires none = new_lock name scope repo owner now expires
winner name scope repo owner now expires (some row) =
    if row_owned_by row owner then renew scope repo now expires row else row

abbrev pub beaten : Owner → ℕ → ℕ → Lock → Lock
beaten owner now expires row = if row_owned_by row owner then beat now expires row else row

abbrev pub Leases : Type 0
Leases = String → Option Lock

-- The abstract machine: each call as a change of the map of leases.
abbrev pub step : ℕ → Call → Leases → Leases
step now (Call.acquire name scope repo owner ttl details) leases j =
    if name == j
    then some (winner name scope repo owner now (expires_at now ttl) (leases j))
    else leases j
step now (Call.heartbeat name owner ttl details) leases j =
    if name == j then Option.map (beaten owner now (expires_at now ttl)) (leases j) else leases j
step now (Call.release name owner details) leases j =
    if name == j then reject (λ row. row_owned_by row owner) (leases j) else leases j
step now Call.expire_stale leases j = leases j

-- The leases that a database holds at a time.
abbrev pub view : ℕ → Db → Leases
view now db name = live now (get_lock_locked name db)

pub get-acquire_row :
    (name scope repo : String) (owner : Owner) (now expires : ℕ) (details : String)
    (row : Option Lock) (db : Db) (j : String)
    → get_lock_locked name db ≡ row
    → get_lock_locked j (acquire_row name scope repo owner now expires details row db).1 ≡ (
        if name == j
        then some (winner name scope repo owner now expires row)
        else get_lock_locked j db)
unfolding acquire_row get_lock_locked record_event_locked
get-acquire_row name scope repo owner now expires details none db j absent =
    select-insert lock_name_of (new_lock name scope repo owner now expires) j db.locks absent
get-acquire_row name scope repo owner now expires details (some row) db j found = ground (
  arith,
  select-update lock_name_of name j (renew scope repo now expires) db.locks (λ r. refl),
  eq_iff name j,
)

expires_at-later : (now : ℕ) (ttl : ℤ) → now < expires_at now ttl
unfolding expires_at
expires_at-later now ttl = omega (arith, at_least_one-pos ttl)

-- A lease that a request won has not expired.
live-winner :
    (name scope repo : String) (owner : Owner) (now expires : ℕ) (o : Option Lock)
    → now < expires
    → live now (some (winner name scope repo owner now expires (live now o)))
      ≡ some (winner name scope repo owner now expires (live now o))
live-winner name scope repo owner now expires o h = ground arith

live-live : (now : ℕ) (o : Option Lock) → live now (live now o) ≡ live now o
live-live now o = ground arith

acquire_refines :
    (name scope repo : String) (owner : Owner) (ttl : ℤ) (details : String) (now : ℕ) (db : Db)
    → IsValid db
    → (j : String)
    → view now (GlobalLocks.acquire name scope repo owner ttl details now db).1 j
      ≡ step now (Call.acquire name scope repo owner ttl details) (view now db) j
unfolding GlobalLocks.acquire
acquire_refines name scope repo owner ttl details now db v j =
    let expired : Db = (expire_stale_locked now db).1 in
    let expires : ℕ = expires_at now ttl in
    rw
      (get-acquire_row name scope repo owner now expires details (get_lock_locked name expired)
        expired j refl)
      (rw (get_lock-expire_stale now db v.unique name, get_lock-expire_stale now db v.unique j)
        (elim (Bool-cases (name == j)) [
          | inl same ↦
              rw (same, ← (eq_iff name j).0 same)
                (live-winner name scope repo owner now expires (get_lock_locked name db)
                  (expires_at-later now ttl))
          | inr other ↦ rw other (live-live now (get_lock_locked j db))
        ]))

get-heartbeat_row :
    (name : String) (owner : Owner) (now expires : ℕ) (details : String) (row : Lock) (db : Db)
    (j : String)
    → get_lock_locked j (
        record_event_locked name "heartbeat" owner now details
          (record db { locks = update lock_name_of name (beat now expires) db.locks }))
      ≡ (if name == j
          then Option.map (beat now expires) (get_lock_locked j db)
          else get_lock_locked j db)
unfolding get_lock_locked record_event_locked
get-heartbeat_row name owner now expires details row db j =
    select-update lock_name_of name j (beat now expires) db.locks (λ r. refl)

-- After a heartbeat that found `row`, the lease of each name.
view-heartbeat_row :
    (name : String) (owner : Owner) (now expires : ℕ) (details : String) (row : Option Lock)
    (db expired : Db) (j : String)
    → now < expires
    → get_lock_locked name expired ≡ row
    → ((k : String) → get_lock_locked k expired ≡ view now db k)
    → view now (settle db (heartbeat_row name owner now expires details row expired)).1 j
      ≡ (if name == j then Option.map (beaten owner now expires) (view now db j) else view now db j)
unfolding heartbeat_row
view-heartbeat_row name owner now expires details none db expired j h found views =
    ground (arith, eq_iff name j, views name, views j)
view-heartbeat_row name owner now expires details (some row) db expired j h found views = ground (
  arith,
  eq_iff name j,
  views name,
  views j,
  get-heartbeat_row name owner now expires (or_default details "heartbeat") row expired j,
)

heartbeat_refines :
    (name : String) (owner : Owner) (ttl : ℤ) (details : String) (now : ℕ) (db : Db)
    → IsValid db
    → (j : String)
    → view now (GlobalLocks.heartbeat name owner ttl details now db).1 j
      ≡ step now (Call.heartbeat name owner ttl details) (view now db) j
unfolding GlobalLocks.heartbeat transaction
heartbeat_refines name owner ttl details now db v j =
    view-heartbeat_row name owner now _ details _ db _ j (expires_at-later now ttl) refl
      (get_lock-expire_stale now db v.unique)

view-release_row :
    (name : String) (owner : Owner) (now : ℕ) (details : String) (row : Option Lock) (db : Db)
    (j : String)
    → get_lock_locked name db ≡ row
    → view now (settle db (release_row name owner now details row db)).1 j
      ≡ (if name == j then reject (λ r. row_owned_by r owner) (view now db j) else view now db j)
unfolding release_row get_lock_locked record_event_locked
view-release_row name owner now details none db j found = ground (arith, eq_iff name j)
view-release_row name owner now details (some row) db j found =
    ground (arith, eq_iff name j, select-delete lock_name_of name j db.locks)

release_refines :
    (name : String) (owner : Owner) (details : String) (now : ℕ) (db : Db) (j : String)
    → view now (GlobalLocks.release name owner details now db).1 j
      ≡ step now (Call.release name owner details) (view now db) j
unfolding GlobalLocks.release transaction
release_refines name owner details now db j = view-release_row name owner now details _ db j refl

-- Seen at its own clock reading, each call changes the leases of a valid database as the abstract
-- machine says, on every branch: `acquire` gives a free name to the caller, renews the caller's own
-- lease and leaves another's; `heartbeat` and `release` touch the caller's own lease only, also
-- when they raise; `expire_stale` changes no lease.
pub run_refines :
    (now : ℕ) (call : Call) (db : Db) (j : String)
    → IsValid db
    → view now (run now call db) j ≡ step now call (view now db) j
unfolding run GlobalLocks.expire_stale
run_refines now (Call.acquire name scope repo owner ttl details) db j v =
    acquire_refines name scope repo owner ttl details now db v j
run_refines now (Call.heartbeat name owner ttl details) db j v =
    heartbeat_refines name owner ttl details now db v j
run_refines now (Call.release name owner details) db j v =
    release_refines name owner details now db j
run_refines now Call.expire_stale db j v =
    ap (live now) (get_lock-expire_stale now db v.unique j) ∙ live-live now (get_lock_locked j db)
