-- ===== src/SpecRegistry/Calls.antt =====
-- The calls of the registry as data, and sequences of them. The store's lock and BEGIN IMMEDIATE let
-- one transaction after the other at the database.
use softos_sdd_orchestrator.Prelude.{String, Bool, Option, List, [], ◌∷◌}
use softos_sdd_orchestrator.Prelude.Int.{ℤ}
use softos_sdd_orchestrator.SpecRegistry.Data.{Registry, Clock}
use softos_sdd_orchestrator.SpecRegistry.Methods
use softos_sdd_orchestrator.SpecRegistry.Methods.{Answer}

pub data Request : Type 0 where
  claim : (spec_id actor source reason : String) → ℤ → (token : String) → Request
  heartbeat : (spec_id actor lock_token source reason : String) → ℤ → Request
  release : (spec_id actor lock_token source reason : String) → Request
  reassign :
      (spec_id actor to_actor lock_token role : String)
      → (force : Bool) → (source reason : String) → ℤ
      → (new_token : String) → Request
  transition :
      (spec_id actor to_state source reason : String) → (lock_token : Option String) → Request

unfoldable pub handle : Clock → Request → Registry → Answer
handle clock (claim spec_id actor source reason ttl token) =
    Methods.claim_spec clock spec_id actor source reason ttl token
handle clock (heartbeat spec_id actor lock_token source reason ttl) =
    Methods.heartbeat_spec clock spec_id actor lock_token source reason ttl
handle clock (release spec_id actor lock_token source reason) =
    Methods.release_spec clock spec_id actor lock_token source reason
handle clock (reassign spec_id actor to_actor lock_token role force source reason ttl new_token) =
    Methods.reassign_spec clock spec_id actor to_actor lock_token role force source reason ttl
      new_token
handle clock (transition spec_id actor to_state source reason lock_token) =
    Methods.transition_spec clock spec_id actor to_state source reason lock_token

unfoldable pub handle_all : List (Clock × Request) → Registry → Registry
handle_all [] registry = registry
handle_all ((clock, request) ∷ rest) registry = handle_all rest (handle clock request registry).1
