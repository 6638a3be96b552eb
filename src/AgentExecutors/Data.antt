-- ===== src/AgentExecutors/Data.antt =====
-- Executors, and the errors of their registry by what their messages show.
use softos_sdd_orchestrator.Prelude.{ℕ, String, Bool, Option, none, some, List, ◌==◌, if◌then◌else◌}
use softos_sdd_orchestrator.Prelude.Json.{Json}

-- SUPPORTED_ADAPTERS
pub data Adapter : Type 0 where
  codex cursor opencode : Adapter

-- TRANSPORTS
pub data Transport : Type 0 where
  cli acp auto : Transport

-- PERMISSION_POLICIES
pub data PermissionPolicy : Type 0 where
  reject allow_once : PermissionPolicy

abbrev pub adapter_named : String → Option Adapter
adapter_named name =
    if name == "codex"
    then some codex
    else if name == "cursor"
    then some cursor
    else if name == "opencode"
    then some opencode
    else none

abbrev pub transport_named : String → Option Transport
transport_named name =
    if name == "cli"
    then some cli
    else if name == "acp"
    then some acp
    else if name == "auto"
    then some auto
    else none

abbrev pub policy_named : String → Option PermissionPolicy
policy_named name =
    if name == "reject" then some reject else if name == "allow_once" then some allow_once else none

pub record AgentExecutor : Type 0 where
  pub executor_id : String
  pub adapter : Adapter
  pub executable : String
  pub argv : List String
  pub transport : Transport
  pub allow_cli_fallback : Bool
  pub permission_policy : PermissionPolicy
  pub acp_executable : Option String
  pub acp_argv : List String
  pub acp_auth_method : Option String

-- `AgentRegistryError`
pub data AgentRegistryError : Type 0 where
  duplicate_key : (key : String) → AgentRegistryError
  no_section section_not_object no_executors : AgentRegistryError
  bad_schema_version : Json → AgentRegistryError
  unknown_section_field : (name : String) → AgentRegistryError
  bad_id entry_not_object : (executor_id : String) → AgentRegistryError
  unknown_entry_field : (executor_id name : String) → AgentRegistryError
  blank_adapter : (executor_id : String) → AgentRegistryError
  unsupported_adapter : (executor_id name : String) → AgentRegistryError
  blank_executable : (executor_id : String) → AgentRegistryError
  bad_executable : (executor_id executable : String) → AgentRegistryError
  argv_not_array : (executor_id : String) → AgentRegistryError
  bad_argument : (executor_id : String) (index : ℕ) → AgentRegistryError
  bad_transport : (executor_id : String) → Json → AgentRegistryError
  bad_fallback : (executor_id : String) → AgentRegistryError
  bad_policy : (executor_id : String) → Json → AgentRegistryError
  acp_not_object : (executor_id : String) → AgentRegistryError
  unknown_acp_field : (executor_id name : String) → AgentRegistryError
  blank_acp_executable bad_acp_argv blank_auth_method : (executor_id : String) → AgentRegistryError
