-- ===== src/AgentExecutors/Parse.antt =====
-- `_duplicate_key_detector` and `parse_agents_registry`.
use softos_sdd_orchestrator.Prelude.{
  ℕ, suc, String, Bool, true, false, not, ◌&&◌, ◌||◌, Option, none, some, List, [], ◌∷◌,
  if◌then◌else◌, leb, nat_eq,
}
use Prim.Native.Char.{Char, code}
use Prim.Native.String.{◌++◌ as ◌followed_by◌}
use package.text.Mathlib.Text.{starts_with}
use softos_sdd_orchestrator.Prelude.Result.{Result, ok, err, ◌>>=◌, ◌>>◌, ensure}
use softos_sdd_orchestrator.Prelude.Lists.{contains}
use softos_sdd_orchestrator.Prelude.Sets.{has}
use softos_sdd_orchestrator.Prelude.Dict.{Dict, sorted_items}
use softos_sdd_orchestrator.Prelude.Collect.{collect}
use softos_sdd_orchestrator.Prelude.Json.{
  Json, null, bool, text, arr, obj, Items, nil, item, end, fields, get, get_or, stripped_text,
  is_one, unknown_field, texts_of,
}
use softos_sdd_orchestrator.AgentExecutors.Data.{
  Adapter, Transport, PermissionPolicy, AgentExecutor, AgentRegistryError, adapter_named,
  transport_named, policy_named, duplicate_key, no_section, section_not_object, no_executors,
  bad_schema_version, unknown_section_field, bad_id, entry_not_object, unknown_entry_field,
  blank_adapter, unsupported_adapter, blank_executable, bad_executable, argv_not_array,
  bad_argument, bad_transport, bad_fallback, bad_policy, acp_not_object, unknown_acp_field,
  blank_acp_executable, bad_acp_argv, blank_auth_method,
}

abbrev Parsed : Type 0 → Type 0
Parsed A = Result AgentRegistryError A

unfoldable pub no_duplicates : List String → Dict Json → Parsed (Dict Json)
no_duplicates seen [] = ok []
no_duplicates seen ((key, value) ∷ pairs) =
    let rest = no_duplicates (key ∷ seen) pairs in
    if contains key seen
    then err (duplicate_key key)
    else rest >>= λ payload. ok ((key, value) ∷ payload)

-- `_duplicate_key_detector`
unfoldable pub duplicate_key_detector : Dict Json → Parsed (Dict Json)
unfolding no_duplicates
duplicate_key_detector pairs = no_duplicates [] pairs

-- [a-z0-9]
unfoldable pub is_id_char : Char → Bool
is_id_char c = leb 97 (code c) && leb (code c) 122 || leb 48 (code c) && leb (code c) 57

-- [a-z0-9-]*
unfoldable pub is_id_rest : String → Bool
unfolding is_id_char
is_id_rest String.[] = true
is_id_rest (String.◌∷◌ c s) = (is_id_char c || nat_eq (code c) 45) && is_id_rest s

-- EXECUTOR_ID_PATTERN.fullmatch
unfoldable pub is_executor_id : String → Bool
unfolding is_id_rest
is_executor_id String.[] = false
is_executor_id (String.◌∷◌ c s) = is_id_char c && is_id_rest s

-- An absolute path, or a name without a separator and a dot at its start.
unfoldable pub is_executable_name : String → Bool
is_executable_name executable =
    starts_with executable "/"
    || not (has executable "/" || has executable "\\" || starts_with executable ".")

-- `_validate_executor_executable`
unfoldable pub validate_executor_executable : (executor_id executable : String) → Parsed (Unit {0})
unfolding is_executable_name
validate_executor_executable executor_id executable =
    ensure (is_executable_name executable) (bad_executable executor_id executable)

-- An error for a value that is missing.
abbrev pub demand : {A : Type 0} → Option A → AgentRegistryError → Parsed A
demand none e = err e
demand (some a) e = ok a

abbrev pub known_only : Option String → (String → AgentRegistryError) → Parsed (Unit {0})
known_only none e = ok tt
known_only (some name) e = err (e name)

abbrev pub entry_of : Json → AgentRegistryError → Parsed (Dict Json)
entry_of (obj fs) e = ok (fields fs)
entry_of _ e = err e

unfoldable pub adapter_of : String → Json → Parsed Adapter
unfolding stripped_text
adapter_of executor_id adapter = do
  name ← demand (stripped_text adapter) (blank_adapter executor_id)
  demand (adapter_named name) (unsupported_adapter executor_id name)

unfoldable pub executable_of : String → Json → Parsed String
unfolding stripped_text validate_executor_executable
executable_of executor_id executable = do
  name ← demand (stripped_text executable) (blank_executable executor_id)
  validate_executor_executable executor_id name
  ok name

unfoldable pub arguments : String → ℕ → Items → Parsed (List String)
arguments executor_id index nil = ok []
arguments executor_id index (item (text s) vs) =
    arguments executor_id (suc index) vs >>= λ argv. ok (s ∷ argv)
arguments executor_id index (item _ vs) = err (bad_argument executor_id index)

abbrev pub argv_of : String → Json → Parsed (List String)
argv_of executor_id (arr vs) = arguments executor_id 0 vs
argv_of executor_id _ = err (argv_not_array executor_id)

abbrev pub transport_of : String → Json → Parsed Transport
transport_of executor_id (text name) =
    demand (transport_named name) (bad_transport executor_id (text name))
transport_of executor_id value = err (bad_transport executor_id value)

abbrev pub policy_of : String → Json → Parsed PermissionPolicy
policy_of executor_id (text name) = demand (policy_named name) (bad_policy executor_id (text name))
policy_of executor_id value = err (bad_policy executor_id value)

abbrev pub fallback_of : String → Json → Parsed Bool
fallback_of executor_id (bool b) = ok b
fallback_of executor_id _ = err (bad_fallback executor_id)

-- The part of an executor that its `acp` object gives.
pub record Acp : Type 0 where
  pub acp_executable : Option String
  pub acp_argv : List String
  pub acp_auth_method : Option String

-- The text of `acp.executable`, where one is given.
unfoldable pub stated_acp_executable : String → Json → Parsed (Option String)
unfolding stripped_text validate_executor_executable
stated_acp_executable executor_id executable = do
  name ← demand (stripped_text executable) (blank_acp_executable executor_id)
  validate_executor_executable (executor_id followed_by ".acp") name
  ok (some name)

unfoldable pub acp_executable_of : String → Json → Parsed (Option String)
unfolding stated_acp_executable
acp_executable_of executor_id null = ok none
acp_executable_of executor_id executable = stated_acp_executable executor_id executable

abbrev pub acp_argv_of : String → Json → Parsed (List String)
acp_argv_of executor_id (arr vs) = demand (texts_of vs) (bad_acp_argv executor_id)
acp_argv_of executor_id _ = err (bad_acp_argv executor_id)

unfoldable pub auth_method_of : String → Json → Parsed (Option String)
unfolding stripped_text
auth_method_of executor_id null = ok none
auth_method_of executor_id auth_method =
    demand (stripped_text auth_method) (blank_auth_method executor_id) >>= λ name. ok (some name)

abbrev pub acp_fields : List String
acp_fields = "executable" ∷ "argv" ∷ "auth_method" ∷ []

-- An `acp` object, where one is given.
unfoldable pub stated_acp : String → Json → Parsed Acp
unfolding acp_executable_of auth_method_of texts_of unknown_field get get_or
stated_acp executor_id acp = do
  entry ← entry_of acp (acp_not_object executor_id)
  known_only (unknown_field acp_fields entry) (unknown_acp_field executor_id)
  executable ← acp_executable_of executor_id (get "executable" entry)
  argv ← acp_argv_of executor_id (get_or "argv" (arr nil) entry)
  auth_method ← auth_method_of executor_id (get "auth_method" entry)
  ok (record { acp_executable = executable; acp_argv = argv; acp_auth_method = auth_method })

unfoldable pub acp_of : String → Json → Parsed Acp
unfolding stated_acp
acp_of executor_id null =
    ok (record { acp_executable = none; acp_argv = []; acp_auth_method = none })
acp_of executor_id acp = stated_acp executor_id acp

abbrev pub executor_fields : List String
executor_fields =
    "adapter" ∷ "executable" ∷ "argv" ∷ "transport" ∷ "allow_cli_fallback" ∷ "permission_policy"
    ∷ "acp" ∷ []

-- The body of the loop over the entries.
unfoldable pub executor_of : String → Json → Parsed AgentExecutor
unfolding is_executor_id unknown_field get get_or adapter_of executable_of arguments acp_of
executor_of executor_id value = do
  ensure (is_executor_id executor_id) (bad_id executor_id)
  entry ← entry_of value (entry_not_object executor_id)
  known_only (unknown_field executor_fields entry) (unknown_entry_field executor_id)
  adapter ← adapter_of executor_id (get "adapter" entry)
  executable ← executable_of executor_id (get "executable" entry)
  argv ← argv_of executor_id (get "argv" entry)
  transport ← transport_of executor_id (get_or "transport" (text "cli") entry)
  allow_cli_fallback ← fallback_of executor_id (get_or "allow_cli_fallback" (bool false) entry)
  permission_policy ← policy_of executor_id (get_or "permission_policy" (text "reject") entry)
  acp ← acp_of executor_id (get "acp" entry)
  ok (record {
    executor_id = executor_id;
    adapter = adapter;
    executable = executable;
    argv = argv;
    transport = transport;
    allow_cli_fallback = allow_cli_fallback;
    permission_policy = permission_policy;
    acp_executable = acp.acp_executable;
    acp_argv = acp.acp_argv;
    acp_auth_method = acp.acp_auth_method;
  })

abbrev pub section_of : Json → (missing other : AgentRegistryError) → Parsed (Dict Json)
section_of null missing other = err missing
section_of value missing other = entry_of value other

abbrev pub non_empty_object : Json → AgentRegistryError → Parsed (Dict Json)
non_empty_object (obj end) e = err e
non_empty_object value e = entry_of value e

unfoldable pub parse_agents_registry : Dict Json → Parsed (Dict AgentExecutor)
unfolding executor_of collect unknown_field get sorted_items
parse_agents_registry workspace_config = do
  agents ← section_of (get "agents" workspace_config) no_section section_not_object
  let schema_version = get "schema_version" agents
  ensure (is_one schema_version) (bad_schema_version schema_version)
  entries ← non_empty_object (get "executors" agents) no_executors
  known_only (unknown_field ("schema_version" ∷ "executors" ∷ []) agents) unknown_section_field
  executors ← collect (λ _. executor_of) [] entries
  ok (sorted_items executors)
