-- ===== src/AgentResources/Accepted.antt =====
-- About `parse_resource_registry` as a whole.
use softos_sdd_orchestrator.Prelude.{
  String, Bool, true, false, not, Option, none, some, List, [], ◌∷◌, ◌≡◌, refl, sym, ap, ◌∙◌, subst,
  arith, Bool-cases, inl, inr,
}
use mathlib.Core.Option.{none-ne-some}
use softos_sdd_orchestrator.Prelude.Result.{
  Result, ok, err, Holds, holds, fails, bind-Holds, skip-Holds, ensure-Holds, ok-Holds,
}
use softos_sdd_orchestrator.Prelude.Lists.{All, filter}
use softos_sdd_orchestrator.Prelude.Sort.{IsSorted}
use softos_sdd_orchestrator.Prelude.Dict.{
  Dict, lookup, is_key, item_leb, sorted_items, IsDict, lookup-sorted_items, sorted_items-IsDict,
  sorted_items-IsSorted,
}
use softos_sdd_orchestrator.Prelude.Collect.{collect, EachEntry, collect_sound}
use softos_sdd_orchestrator.Prelude.Json.{
  Json, null, bool, int, float, text, arr, obj, Fields, end, field, fields, get, is_one,
}
use softos_sdd_orchestrator.AgentExecutors.Data.{AgentExecutor}
use softos_sdd_orchestrator.AgentResources.Data.{AgentResource}
use softos_sdd_orchestrator.AgentResources.Registry.{
  RegistryError, bad_schema_version, resource_of, section_of, resources_in, executors_for,
  all_there, assert_no_concrete_identity_branching, required_resource_ids, parse_resource_registry,
}
use softos_sdd_orchestrator.AgentResources.Registered.{IsResource, resource_of-IsResource}

-- The executors that the resources may name.
abbrev pub Executors : Dict Json → Option (Dict AgentExecutor) → Dict AgentExecutor → Type 0
Executors workspace_config given executors = executors_for workspace_config given ≡ ok executors

-- What holds of a registry of resources that is read from a workspace configuration.
pub record IsResourceRegistry (workspace_config : Dict Json) (given : Option (Dict AgentExecutor))
    (registry : Dict AgentResource) : Type 0 where
  pub executors : Dict AgentExecutor
  pub known : Executors workspace_config given executors
  pub section : Fields
  pub entries : Fields
  pub has_section : get "agent_resources" workspace_config ≡ obj section
  pub has_entries : get "resources" (fields section) ≡ obj entries
  pub version : is_one (get "schema_version" (fields section)) ≡ true
  pub unique : IsDict registry
  pub ordered : IsSorted item_leb registry
  pub resources : EachEntry (IsResource executors) registry
  pub all_entries : (k : String) → is_key k registry ≡ is_key k (fields entries)
  pub required : All (λ k. is_key k registry ≡ true) required_resource_ids

-- A value is an object with the fields that are read.
Reads : Json → Dict Json → Type 0
Reads value d = (fs : Fields) × (value ≡ obj fs) × (d ≡ fields fs)

section_of-Reads : (value : Json) → Holds (Reads value) (section_of value)
unfolding Reads
section_of-Reads null = fails _
section_of-Reads (bool b) = fails _
section_of-Reads (int n) = fails _
section_of-Reads (float f) = fails _
section_of-Reads (text s) = fails _
section_of-Reads (arr vs) = fails _
section_of-Reads (obj fs) = holds (fields fs) (fs, refl, refl)

resources_in-Reads : (value : Json) → Holds (Reads value) (resources_in value)
unfolding Reads
resources_in-Reads null = fails _
resources_in-Reads (bool b) = fails _
resources_in-Reads (int n) = fails _
resources_in-Reads (float f) = fails _
resources_in-Reads (text s) = fails _
resources_in-Reads (arr vs) = fails _
resources_in-Reads (obj end) = fails _
resources_in-Reads (obj (field k v fs)) = holds (fields (field k v fs)) (field k v fs, refl, refl)

-- A result that satisfies what its equation says.
traced : {E A : Type 0} (m : Result E A) → Holds (λ a. m ≡ ok a) m
traced (ok a) = holds a refl
traced (err e) = fails e

collected :
    (executors : Dict AgentExecutor) (entries : Dict Json)
    → Holds
        (λ d.
          IsDict d
          × EachEntry (IsResource executors) d
          × ((k : String) → is_key k d ≡ is_key k entries))
        (collect (resource_of executors) [] entries)
unfolding lookup
collected executors entries = split (collect (resource_of executors) [] entries) refl
  where
    split :
        (m : Result RegistryError (Dict AgentResource))
        → collect (resource_of executors) [] entries ≡ m
        → Holds
            (λ d.
              IsDict d
              × EachEntry (IsResource executors) d
              × ((k : String) → is_key k d ≡ is_key k entries))
            m
    split (ok d) run = holds d (
        collect_sound (resource_of executors) (IsResource executors)
          (λ d k value v read. ok-Holds (resource_of-IsResource executors d k value) read) []
          entries d run tt
          (λ (k : String) (v : AgentResource) (found : none ≡ some v).
            absurd (none-ne-some v found)))
    split (err e) run = fails e

all_there-nil : (missing : List String) → Holds (λ _. missing ≡ []) (all_there missing)
all_there-nil [] = holds tt refl
all_there-nil (k ∷ ks) = fails _

-- When no text fails a test, each passes it.
filter-All :
    (test : String → Bool) (ids : List String)
    → filter (λ k. not (test k)) ids ≡ []
    → All (λ k. test k ≡ true) ids
unfolding filter
filter-All test [] h = tt
filter-All test (k ∷ ids) h = elim (Bool-cases (test k)) [
  | inl there ↦ (there, filter-All test ids (rw there at h))
  | inr missing ↦ absurd (ground (arith, h, missing))
]

parse_resource_registry-IsResourceRegistry :
    (workspace_config : Dict Json) (given : Option (Dict AgentExecutor))
    → Holds
        (IsResourceRegistry workspace_config given)
        (parse_resource_registry workspace_config given)
unfolding parse_resource_registry Reads
parse_resource_registry-IsResourceRegistry workspace_config given =
    bind-Holds _ (section_of-Reads (get "agent_resources" workspace_config))
      (λ part (part_fields, has_part, read).
        bind-Holds _
          (ensure-Holds (is_one (get "schema_version" part))
            (bad_schema_version (get "schema_version" part)))
          (λ _ version.
            bind-Holds _ (resources_in-Reads (get "resources" part))
              (λ entries (entry_fields, has_entries, read_entries).
                bind-Holds _ (traced (executors_for workspace_config given)) (λ executors known.
                  bind-Holds _ (collected executors entries) (λ resources (unique, each, keys_kept).
                    let same_keys : (k : String)
                        → is_key k (sorted_items resources) ≡ is_key k resources =
                      λ (k : String).
                        ap (λ (o : Option AgentResource). elim o [ none ↦ false | some _ ↦ true ])
                          (lookup-sorted_items k resources unique) in
                    bind-Holds _
                      (all_there-nil (filter (λ k. not (is_key k resources)) required_resource_ids))
                      (λ _ complete.
                        skip-Holds (assert_no_concrete_identity_branching resources) _ (λ _.
                          let (a, (b, (c, u))) =
                            filter-All (λ k. is_key k resources) required_resource_ids complete in
                          holds (sorted_items resources) (record {
                            executors = executors;
                            known = known;
                            section = part_fields;
                            entries = entry_fields;
                            has_section = has_part;
                            has_entries =
                                subst (λ d. get "resources" d ≡ obj entry_fields) read has_entries;
                            version =
                                subst (λ d. is_one (get "schema_version" d) ≡ true) read version;
                            unique = sorted_items-IsDict resources unique;
                            ordered = sorted_items-IsSorted resources;
                            resources = λ k v found.
                                each k v (sym (lookup-sorted_items k resources unique) ∙ found);
                            all_entries =
                                λ k. same_keys k ∙ keys_kept k ∙ ap (is_key k) read_entries;
                            required = (
                              same_keys "opencode-local" ∙ a,
                              (same_keys "opencode-free" ∙ b, (same_keys "opencode-go" ∙ c, tt)),
                            );
                          }))))))))

-- A configuration whose resources are accepted has an object `agent_resources` of schema version 1, and
-- the registry has exactly the ids of its resources, once each and in order, the three required ones
-- among them. Each id matches the pattern and stands in its resource, whose executor is one of the
-- executors that are given, or that the configuration registers, whose capacity is at least 1, and 1
-- for opencode-local, and whose model resolution is the one that opencode-free and opencode-go must
-- have, or one of the two that opencode-local may have.
pub parse_resource_registry_sound :
    (workspace_config : Dict Json) (given : Option (Dict AgentExecutor))
    (registry : Dict AgentResource)
    → parse_resource_registry workspace_config given ≡ ok registry
    → IsResourceRegistry workspace_config given registry
parse_resource_registry_sound workspace_config given registry run =
    ok-Holds (parse_resource_registry-IsResourceRegistry workspace_config given) run
