-- ===== src/AgentResources/Registered.antt =====
-- About `parse_resource_registry`: what holds of a registry that it accepts.
use softos_sdd_orchestrator.Prelude.{
  ℕ, ◌≤◌, String, Bool, true, not, ◌||◌, Option, none, some, ◌==◌, leb, nat_eq, leb→le, nat_eq→eq,
  ◌≡◌, ◌⊎◌, refl, arith, inl, inr, eq_iff,
}
use softos_sdd_orchestrator.Prelude.Result.{
  ensure, Holds, holds, fails, bind-Holds, skip-Holds, ensure-Holds,
}
use softos_sdd_orchestrator.Prelude.Int.{pos, negsuc}
use softos_sdd_orchestrator.Prelude.Dict.{Dict, is_key}
use softos_sdd_orchestrator.Prelude.Json.{
  Json, null, bool, int, float, text, arr, obj, get, get_or, stripped_text, unknown_field,
}
use softos_sdd_orchestrator.AgentExecutors.Data.{AgentExecutor}
use softos_sdd_orchestrator.AgentExecutors.Parse.{is_executor_id}
use softos_sdd_orchestrator.AgentResources.Data.{
  AgentResource, ModelResolution, wrapper_profile, worker_profile, dynamic_free, dynamic_go,
  process_override,
}
use softos_sdd_orchestrator.AgentResources.Registry.{
  RegistryError, bad_id, duplicate_id, entry_not_object, forbidden_field, unknown_entry_field,
  blank_executor, unknown_executor, bad_capacity, local_capacity, bad_resolution, wrong_resolution,
  demand, without, entry_of, forbidden_in, resource_fields, executor_of, capabilities_of,
  capacity_of, cost_tier_of, priority_in, is_own_resolution, is_free_resolution, is_go_resolution,
  resolution_named, resolution_of, sensitivity_of, tie_break_of, resource_of,
}

demand-Holds :
    {A : Type 0} (o : Option A) (e : RegistryError) → Holds (λ a. o ≡ some a) (demand o e)
demand-Holds none e = fails e
demand-Holds (some a) e = holds a refl

executor_of-is_key :
    (executors : Dict AgentExecutor) (resource_id : String) (value : Json)
    → Holds
        (λ executor_id. is_key executor_id executors ≡ true)
        (executor_of executors resource_id value)
unfolding executor_of
executor_of-is_key executors resource_id value =
    skip-Holds (demand (stripped_text value) (blank_executor resource_id)) _ (λ executor_id.
      bind-Holds _
        (ensure-Holds (is_key executor_id executors) (unknown_executor resource_id executor_id))
        (λ _ known. holds executor_id known))

-- A capacity for the resource: a local one serves one at a time.
abbrev pub IsCapacity : String → ℕ → Type 0
IsCapacity resource_id capacity = (1 ≤ capacity) × (resource_id ≡ "opencode-local" → capacity ≡ 1)

either_of : (a b : Bool) → (not a || b) ≡ true → a ≡ true → b ≡ true
either_of a b h k = ground arith

capacity_of-IsCapacity :
    (resource_id : String) (value : Json)
    → Holds (IsCapacity resource_id) (capacity_of resource_id value)
capacity_of-IsCapacity resource_id (int (pos n)) =
    bind-Holds _ (ensure-Holds (leb 1 n) (bad_capacity resource_id (int (pos n)))) (λ _ positive.
      bind-Holds _
        (ensure-Holds (not (resource_id == "opencode-local") || nat_eq n 1)
          (local_capacity resource_id))
        (λ _ single. holds n (
          leb→le 1 n positive,
          λ same.
              nat_eq→eq n 1 (either_of _ _ single ((eq_iff resource_id "opencode-local").1 same)),
        )))
capacity_of-IsCapacity resource_id (int (negsuc n)) = fails _
capacity_of-IsCapacity resource_id null = fails _
capacity_of-IsCapacity resource_id (bool b) = fails _
capacity_of-IsCapacity resource_id (float f) = fails _
capacity_of-IsCapacity resource_id (text s) = fails _
capacity_of-IsCapacity resource_id (arr vs) = fails _
capacity_of-IsCapacity resource_id (obj fs) = fails _

-- A resolution for the resource, by the rules on the three required ones.
abbrev pub IsResolution : String → ModelResolution → Type 0
IsResolution resource_id resolution =
    (resource_id ≡ "opencode-local"
      → (resolution ≡ worker_profile) ⊎ (resolution ≡ process_override))
    × (resource_id ≡ "opencode-free" → resolution ≡ dynamic_free)
    × (resource_id ≡ "opencode-go" → resolution ≡ dynamic_go)

is_own_resolution_lem :
    (r : ModelResolution)
    → is_own_resolution r ≡ true
    → (r ≡ worker_profile) ⊎ (r ≡ process_override)
is_own_resolution_lem wrapper_profile h = absurd (ground arith)
is_own_resolution_lem worker_profile h = inl refl
is_own_resolution_lem dynamic_free h = absurd (ground arith)
is_own_resolution_lem dynamic_go h = absurd (ground arith)
is_own_resolution_lem process_override h = inr refl

is_free_resolution_lem : (r : ModelResolution) → is_free_resolution r ≡ true → r ≡ dynamic_free
is_free_resolution_lem dynamic_free h = refl
is_free_resolution_lem wrapper_profile h = absurd (ground arith)
is_free_resolution_lem worker_profile h = absurd (ground arith)
is_free_resolution_lem dynamic_go h = absurd (ground arith)
is_free_resolution_lem process_override h = absurd (ground arith)

is_go_resolution_lem : (r : ModelResolution) → is_go_resolution r ≡ true → r ≡ dynamic_go
is_go_resolution_lem dynamic_go h = refl
is_go_resolution_lem wrapper_profile h = absurd (ground arith)
is_go_resolution_lem worker_profile h = absurd (ground arith)
is_go_resolution_lem dynamic_free h = absurd (ground arith)
is_go_resolution_lem process_override h = absurd (ground arith)

resolution_of-IsResolution :
    (resource_id : String) (value : Json)
    → Holds (IsResolution resource_id) (resolution_of resource_id value)
resolution_of-IsResolution resource_id (text name) =
    skip-Holds (demand (resolution_named name) (bad_resolution resource_id (text name))) _ (λ r.
      bind-Holds _
        (ensure-Holds (not (resource_id == "opencode-local") || is_own_resolution r)
          (wrong_resolution resource_id))
        (λ _ own.
          bind-Holds _
            (ensure-Holds (not (resource_id == "opencode-free") || is_free_resolution r)
              (wrong_resolution resource_id))
            (λ _ free.
              bind-Holds _
                (ensure-Holds (not (resource_id == "opencode-go") || is_go_resolution r)
                  (wrong_resolution resource_id))
                (λ _ go. holds r (
                  λ same.
                      is_own_resolution_lem r
                        (either_of _ _ own ((eq_iff resource_id "opencode-local").1 same)),
                  λ same.
                      is_free_resolution_lem r
                        (either_of _ _ free ((eq_iff resource_id "opencode-free").1 same)),
                  λ same.
                      is_go_resolution_lem r
                        (either_of _ _ go ((eq_iff resource_id "opencode-go").1 same)),
                )))))
resolution_of-IsResolution resource_id null = fails _
resolution_of-IsResolution resource_id (bool b) = fails _
resolution_of-IsResolution resource_id (int n) = fails _
resolution_of-IsResolution resource_id (float f) = fails _
resolution_of-IsResolution resource_id (arr vs) = fails _
resolution_of-IsResolution resource_id (obj fs) = fails _

-- What holds of a resource under its id.
pub record IsResource (executors : Dict AgentExecutor) (resource_id : String)
    (resource : AgentResource) : Type 0 where
  pub id_matches : is_executor_id resource_id ≡ true
  pub own_id : resource.resource_id ≡ resource_id
  pub known_executor : is_key resource.executor_id executors ≡ true
  pub capacity : IsCapacity resource_id resource.capacity
  pub resolution : IsResolution resource_id resource.model_resolution

pub resource_of-IsResource :
    (executors : Dict AgentExecutor) (resources : Dict AgentResource) (resource_id : String)
    (value : Json)
    → Holds (IsResource executors resource_id) (resource_of executors resources resource_id value)
unfolding resource_of
resource_of-IsResource executors resources resource_id value =
    bind-Holds _ (ensure-Holds (is_executor_id resource_id) (bad_id resource_id)) (λ _ id_matches.
      skip-Holds (ensure (not (is_key resource_id resources)) (duplicate_id resource_id)) _ (λ _.
        skip-Holds (entry_of value (entry_not_object resource_id)) _ (λ entry.
          skip-Holds (without (forbidden_in entry) (forbidden_field resource_id)) _ (λ _.
            skip-Holds
              (without (unknown_field resource_fields entry) (unknown_entry_field resource_id)) _
              (λ _.
                bind-Holds _ (executor_of-is_key executors resource_id (get "executor" entry))
                  (λ executor_id known.
                    skip-Holds (capabilities_of resource_id (get "capabilities" entry)) _
                      (λ capabilities.
                        bind-Holds _ (capacity_of-IsCapacity resource_id (get "capacity" entry))
                          (λ capacity fits.
                            skip-Holds (cost_tier_of resource_id (get "cost_tier" entry)) _
                              (λ cost_tier.
                                skip-Holds
                                  (priority_in resource_id (get "selection_priority" entry)) _
                                  (λ priority.
                                    bind-Holds _
                                      (resolution_of-IsResolution resource_id
                                        (get "model_resolution" entry))
                                      (λ resolution allowed.
                                        skip-Holds
                                          (sensitivity_of resource_id
                                            (get "data_sensitivity" entry))
                                          _
                                          (λ sensitivity.
                                            skip-Holds
                                              (tie_break_of resource_id (
                                                get_or "candidate_tie_break" (text "lexical")
                                                  entry))
                                              _
                                              (λ _. holds _ (record {
                                                id_matches = id_matches;
                                                own_id = refl;
                                                known_executor = known;
                                                capacity = fits;
                                                resolution = allowed;
                                              }))))))))))))))
