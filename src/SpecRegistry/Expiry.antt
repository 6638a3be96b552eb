-- ===== src/SpecRegistry/Expiry.antt =====
-- What becomes of a lock that has run out.
use softos_sdd_orchestrator.Prelude.{ℕ, String, ◌≡◌, Option, some, true, arith}
use softos_sdd_orchestrator.Prelude.Int.{ℤ}
use softos_sdd_orchestrator.Prelude.Result.{Result, ok, err}
use softos_sdd_orchestrator.Table.Transaction.{transaction}
use softos_sdd_orchestrator.SpecRegistry.Data.{
  Spec, Registry, Clock, SpecRegistryError, lock_required,
}
use softos_sdd_orchestrator.SpecRegistry.Helpers.{
  find_spec, is_expired, expire_lock_if_needed, must_get_spec, require_lock_owner, normalized_ttl,
}
use softos_sdd_orchestrator.SpecRegistry.Methods.{respond, as_owner, heartbeat_spec, release_spec}

expired_refused :
    (clock : Clock) (actor source : String) (lock_token : Option String) (row : Spec)
    (registry : Registry)
    → is_expired clock.checked row ≡ true
    → require_lock_owner (expire_lock_if_needed clock source row registry).0 actor lock_token
      ≡ err lock_required
unfolding require_lock_owner expire_lock_if_needed
expired_refused clock actor source lock_token row registry late = ground arith

found_got :
    (spec_id : String) (row : Spec) (registry : Registry)
    → find_spec spec_id registry ≡ some row
    → must_get_spec spec_id registry ≡ ok row
unfolding must_get_spec
found_got spec_id row registry found = ground arith

as_owner_expired :
    (clock : Clock) (spec_id actor : String) (lock_token : Option String) (source : String)
    (action : Spec × Registry → Result SpecRegistryError (Unit {0} × Registry)) (row : Spec)
    (registry : Registry)
    → find_spec spec_id registry ≡ some row
    → is_expired clock.checked row ≡ true
    → respond spec_id (as_owner clock spec_id actor lock_token source action) registry
      ≡ (err lock_required, registry)
unfolding respond transaction as_owner
as_owner_expired clock spec_id actor lock_token source action row registry found late =
    rw (found_got spec_id row registry found)
      (rw (expired_refused clock actor source lock_token row registry late))

-- Once a spec's lock has run out, a heartbeat (of a valid TTL) and a release of anyone, the holder
-- too, raise LOCK_REQUIRED, and the rollback undoes the expiry: the lock's columns still stand in
-- the row, and the audit has no `lock_expired` entry.
pub expiry_rolled_back :
    (clock : Clock) (spec_id actor lock_token source reason : String) (ttl_seconds : ℤ) (ttl : ℕ)
    (row : Spec) (registry : Registry)
    → normalized_ttl ttl_seconds ≡ ok ttl
    → find_spec spec_id registry ≡ some row
    → is_expired clock.checked row ≡ true
    → (heartbeat_spec clock spec_id actor lock_token source reason ttl_seconds registry
        ≡ (err lock_required, registry))
      × (release_spec clock spec_id actor lock_token source reason registry
          ≡ (err lock_required, registry))
unfolding heartbeat_spec release_spec
expiry_rolled_back clock spec_id actor lock_token source reason ttl_seconds ttl row registry valid
      found late =
    (
      rw valid
          (as_owner_expired clock spec_id actor (some lock_token) source _ row registry found late),
      as_owner_expired clock spec_id actor (some lock_token) source _ row registry found late,
    )
