-- ===== src/AgentExecutors/Valid.antt =====
-- About `parse_agents_registry`: what holds of a registry that it accepts.
use softos_sdd_orchestrator.Prelude.{
  String, true, false, Option, none, some, [], ◌∷◌, ◌==◌, ◌≡◌, refl, sym, ap, ◌∙◌, subst, arith,
  Bool-cases, inl, inr,
}
use softos_sdd_orchestrator.Prelude.Result.{
  Result, ok, err, Holds, bind-Holds, skip-Holds, ensure-Holds, ok-Holds, holds, fails,
}
use softos_sdd_orchestrator.Prelude.Strip.{strip}
use softos_sdd_orchestrator.Prelude.Sort.{IsSorted}
use mathlib.Core.Option.{some-injective, none-ne-some}
use softos_sdd_orchestrator.Prelude.Normal.{strip-strip}
use softos_sdd_orchestrator.Prelude.Dict.{
  Dict, item_leb, sorted_items-IsSorted, lookup, is_key, sorted_items, IsDict, lookup-sorted_items,
  sorted_items-IsDict,
}
use softos_sdd_orchestrator.Prelude.Collect.{collect, EachEntry, collect_sound}
use softos_sdd_orchestrator.Prelude.Json.{
  Json, null, bool, int, float, text, arr, obj, Fields, end, field, fields, nil, is_one, get,
  get_or, unknown_field, stripped_text,
}
use softos_sdd_orchestrator.AgentExecutors.Data.{
  AgentExecutor, AgentRegistryError, bad_id, acp_not_object, unknown_acp_field, entry_not_object,
  unknown_entry_field, no_section, section_not_object, no_executors, bad_schema_version,
  unknown_section_field,
}
use softos_sdd_orchestrator.AgentExecutors.Parse.{
  demand, is_executor_id, is_executable_name, executable_of, executor_of, acp_executable_of, acp_of,
  stated_acp, stated_acp_executable, entry_of, known_only, acp_fields, executor_fields, acp_argv_of,
  auth_method_of, adapter_of, argv_of, transport_of, fallback_of, policy_of,
  validate_executor_executable, parse_agents_registry, section_of, non_empty_object,
}

-- A program that may be run: a stripped text, not empty, and a name or an absolute path.
pub record IsProgram (executable : String) : Type 0 where
  pub is_stripped : strip executable ≡ executable
  pub is_there : (executable == "") ≡ false
  pub is_allowed : is_executable_name executable ≡ true

abbrev pub IsProgram? : Option String → Type 0
IsProgram? none = Unit
IsProgram? (some executable) = IsProgram executable

-- Of a text that is stripped and not empty.
abbrev pub IsTrimmed : String → Type 0
IsTrimmed s = (strip s ≡ s) × ((s == "") ≡ false)

pub stripped_text-IsTrimmed :
    (value : Json) (s : String) → stripped_text value ≡ some s → IsTrimmed s
unfolding stripped_text
stripped_text-IsTrimmed (text s) t h = elim (Bool-cases (strip s == "")) [
  | inl blank ↦ absurd (ground (arith, h, blank))
  | inr other ↦
      subst IsTrimmed (some-injective (strip s) t (ground (arith, h, other))) (strip-strip s, other)
]
stripped_text-IsTrimmed null t h = absurd (ground (arith, h))
stripped_text-IsTrimmed (bool b) t h = absurd (ground (arith, h))
stripped_text-IsTrimmed (int n) t h = absurd (ground (arith, h))
stripped_text-IsTrimmed (float f) t h = absurd (ground (arith, h))
stripped_text-IsTrimmed (arr vs) t h = absurd (ground (arith, h))
stripped_text-IsTrimmed (obj fs) t h = absurd (ground (arith, h))

pub demand-Holds :
    {A : Type 0} (o : Option A) (e : AgentRegistryError) → Holds (λ a. o ≡ some a) (demand o e)
demand-Holds none e = fails e
demand-Holds (some a) e = holds a refl

executable_of-IsProgram :
    (executor_id : String) (value : Json) → Holds IsProgram (executable_of executor_id value)
unfolding executable_of validate_executor_executable
executable_of-IsProgram executor_id value = bind-Holds _ (demand-Holds _ _) (λ name found.
    bind-Holds _ (ensure-Holds _ _) (λ _ allowed.
      let (trimmed, there) = stripped_text-IsTrimmed value name found in
      holds name (record { is_stripped = trimmed; is_there = there; is_allowed = allowed })))

stated_acp_executable-IsProgram? :
    (executor_id : String) (value : Json)
    → Holds IsProgram? (stated_acp_executable executor_id value)
unfolding stated_acp_executable validate_executor_executable
stated_acp_executable-IsProgram? executor_id value = bind-Holds _ (demand-Holds _ _) (λ name found.
    bind-Holds _ (ensure-Holds _ _) (λ _ allowed.
      let (trimmed, there) = stripped_text-IsTrimmed value name found in
      holds (some name) (record { is_stripped = trimmed; is_there = there; is_allowed = allowed })))

acp_executable_of-IsProgram? :
    (executor_id : String) (value : Json) → Holds IsProgram? (acp_executable_of executor_id value)
unfolding acp_executable_of
acp_executable_of-IsProgram? executor_id null = holds none tt
acp_executable_of-IsProgram? executor_id (bool b) =
    stated_acp_executable-IsProgram? executor_id (bool b)
acp_executable_of-IsProgram? executor_id (int n) =
    stated_acp_executable-IsProgram? executor_id (int n)
acp_executable_of-IsProgram? executor_id (float f) =
    stated_acp_executable-IsProgram? executor_id (float f)
acp_executable_of-IsProgram? executor_id (text s) =
    stated_acp_executable-IsProgram? executor_id (text s)
acp_executable_of-IsProgram? executor_id (arr vs) =
    stated_acp_executable-IsProgram? executor_id (arr vs)
acp_executable_of-IsProgram? executor_id (obj fs) =
    stated_acp_executable-IsProgram? executor_id (obj fs)

stated_acp-IsProgram? :
    (executor_id : String) (value : Json)
    → Holds (λ acp. IsProgram? acp.acp_executable) (stated_acp executor_id value)
unfolding stated_acp
stated_acp-IsProgram? executor_id value =
    skip-Holds (entry_of value (acp_not_object executor_id)) _ (λ entry.
      skip-Holds (known_only (unknown_field acp_fields entry) (unknown_acp_field executor_id)) _
        (λ _.
          bind-Holds _ (acp_executable_of-IsProgram? executor_id (get "executable" entry))
            (λ executable program.
              skip-Holds (acp_argv_of executor_id (get_or "argv" (arr nil) entry)) _ (λ argv.
                skip-Holds (auth_method_of executor_id (get "auth_method" entry)) _
                  (λ auth_method. holds _ program)))))

acp_of-IsProgram? :
    (executor_id : String) (value : Json)
    → Holds (λ acp. IsProgram? acp.acp_executable) (acp_of executor_id value)
unfolding acp_of
acp_of-IsProgram? executor_id null = holds _ tt
acp_of-IsProgram? executor_id (bool b) = stated_acp-IsProgram? executor_id (bool b)
acp_of-IsProgram? executor_id (int n) = stated_acp-IsProgram? executor_id (int n)
acp_of-IsProgram? executor_id (float f) = stated_acp-IsProgram? executor_id (float f)
acp_of-IsProgram? executor_id (text s) = stated_acp-IsProgram? executor_id (text s)
acp_of-IsProgram? executor_id (arr vs) = stated_acp-IsProgram? executor_id (arr vs)
acp_of-IsProgram? executor_id (obj fs) = stated_acp-IsProgram? executor_id (obj fs)

-- What holds of an executor under its id.
pub record IsExecutor (executor_id : String) (executor : AgentExecutor) : Type 0 where
  pub id_matches : is_executor_id executor_id ≡ true
  pub own_id : executor.executor_id ≡ executor_id
  pub program : IsProgram executor.executable
  pub acp_program : IsProgram? executor.acp_executable

executor_of-IsExecutor :
    (executor_id : String) (value : Json)
    → Holds (IsExecutor executor_id) (executor_of executor_id value)
unfolding executor_of
executor_of-IsExecutor executor_id value =
    bind-Holds _ (ensure-Holds (is_executor_id executor_id) (bad_id executor_id)) (λ _ id_matches.
      skip-Holds (entry_of value (entry_not_object executor_id)) _ (λ entry.
        skip-Holds
          (known_only (unknown_field executor_fields entry) (unknown_entry_field executor_id)) _
          (λ _. skip-Holds (adapter_of executor_id (get "adapter" entry)) _ (λ adapter.
            bind-Holds _ (executable_of-IsProgram executor_id (get "executable" entry))
              (λ executable program. skip-Holds (argv_of executor_id (get "argv" entry)) _ (λ argv.
                skip-Holds (transport_of executor_id (get_or "transport" (text "cli") entry)) _
                  (λ transport.
                    skip-Holds
                      (fallback_of executor_id (get_or "allow_cli_fallback" (bool false) entry)) _
                      (λ fallback.
                        skip-Holds
                          (policy_of executor_id (get_or "permission_policy" (text "reject") entry))
                          _
                          (λ policy.
                            bind-Holds _ (acp_of-IsProgram? executor_id (get "acp" entry))
                              (λ acp acp_program. holds _ (record {
                                id_matches = id_matches;
                                own_id = refl;
                                program = program;
                                acp_program = acp_program;
                              })))))))))))

-- What holds of a registry that is read from a workspace configuration.
pub record IsRegistryOf (workspace_config : Dict Json) (registry : Dict AgentExecutor)
    : Type 0 where
  pub agents : Fields
  pub entries : Fields
  pub has_agents : get "agents" workspace_config ≡ obj agents
  pub has_entries : get "executors" (fields agents) ≡ obj entries
  pub version : is_one (get "schema_version" (fields agents)) ≡ true
  pub unique : IsDict registry
  pub ordered : IsSorted item_leb registry
  pub executors : EachEntry IsExecutor registry
  pub all_entries : (k : String) → is_key k registry ≡ is_key k (fields entries)

section_of-obj :
    (value : Json) (missing other : AgentRegistryError)
    → Holds
        (λ d. (fs : Fields) × (value ≡ obj fs) × (d ≡ fields fs))
        (section_of value missing other)
section_of-obj null missing other = fails missing
section_of-obj (bool b) missing other = fails other
section_of-obj (int n) missing other = fails other
section_of-obj (float f) missing other = fails other
section_of-obj (text s) missing other = fails other
section_of-obj (arr vs) missing other = fails other
section_of-obj (obj fs) missing other = holds (fields fs) (fs, refl, refl)

non_empty_object-obj :
    (value : Json) (e : AgentRegistryError)
    → Holds (λ d. (fs : Fields) × (value ≡ obj fs) × (d ≡ fields fs)) (non_empty_object value e)
non_empty_object-obj null e = fails e
non_empty_object-obj (bool b) e = fails e
non_empty_object-obj (int n) e = fails e
non_empty_object-obj (float f) e = fails e
non_empty_object-obj (text s) e = fails e
non_empty_object-obj (arr vs) e = fails e
non_empty_object-obj (obj end) e = fails e
non_empty_object-obj (obj (field k v fs)) e =
    holds (fields (field k v fs)) (field k v fs, refl, refl)

collected :
    (entries : Dict Json)
    → Holds
        (λ d. IsDict d × EachEntry IsExecutor d × ((k : String) → is_key k d ≡ is_key k entries))
        (collect (λ _. executor_of) [] entries)
unfolding lookup
collected entries = split (collect (λ _. executor_of) [] entries) refl
  where
    split :
        (m : Result AgentRegistryError (Dict AgentExecutor))
        → collect (λ _. executor_of) [] entries ≡ m
        → Holds
            (λ d.
              IsDict d × EachEntry IsExecutor d × ((k : String) → is_key k d ≡ is_key k entries))
            m
    split (ok d) run = holds d (
        collect_sound (λ _. executor_of) IsExecutor
          (λ _ k value v read. ok-Holds (executor_of-IsExecutor k value) read) [] entries d run tt
          (λ (k : String) (v : AgentExecutor) (found : none ≡ some v).
            absurd (none-ne-some v found)))
    split (err e) run = fails e

parse_agents_registry-IsRegistryOf :
    (workspace_config : Dict Json)
    → Holds (IsRegistryOf workspace_config) (parse_agents_registry workspace_config)
unfolding parse_agents_registry
parse_agents_registry-IsRegistryOf workspace_config =
    bind-Holds _ (section_of-obj (get "agents" workspace_config) no_section section_not_object)
      (λ agents (agent_fields, has_agents, read).
        bind-Holds _
          (ensure-Holds (is_one (get "schema_version" agents))
            (bad_schema_version (get "schema_version" agents)))
          (λ _ version.
            bind-Holds _ (non_empty_object-obj (get "executors" agents) no_executors)
              (λ entries (entry_fields, has_entries, read_entries).
                skip-Holds
                  (known_only (unknown_field ("schema_version" ∷ "executors" ∷ []) agents)
                    unknown_section_field)
                  _
                  (λ _. bind-Holds _ (collected entries) (λ executors (unique, each, keys_kept).
                    holds (sorted_items executors) (record {
                      agents = agent_fields;
                      entries = entry_fields;
                      has_agents = has_agents;
                      has_entries =
                          subst (λ d. get "executors" d ≡ obj entry_fields) read has_entries;
                      version = subst (λ d. is_one (get "schema_version" d) ≡ true) read version;
                      unique = sorted_items-IsDict executors unique;
                      ordered = sorted_items-IsSorted executors;
                      executors = λ k v found.
                          each k v (sym (lookup-sorted_items k executors unique) ∙ found);
                      all_entries = λ k.
                          ap (λ (o : Option AgentExecutor). elim o [ none ↦ false | some _ ↦ true ])
                            (lookup-sorted_items k executors unique)
                          ∙ keys_kept k
                          ∙ ap (is_key k) read_entries;
                    }))))))

-- A configuration that is accepted has an object `agents` of schema version 1 with an object of
-- executors, and the registry has exactly its ids, once each and in order: each matches the pattern of
-- ids and stands in its executor, whose program, and whose ACP program if there is one, is a stripped
-- text that is not empty and is an absolute path or a name without a separator or a leading dot.
pub parse_agents_registry_sound :
    (workspace_config : Dict Json) (registry : Dict AgentExecutor)
    → parse_agents_registry workspace_config ≡ ok registry
    → IsRegistryOf workspace_config registry
parse_agents_registry_sound workspace_config registry run =
    ok-Holds (parse_agents_registry-IsRegistryOf workspace_config) run
