-- ===== src/AgentExecutors/Tests.antt =====
-- A configuration with two executors, and some that are refused.
use softos_sdd_orchestrator.Prelude.{String, false, none, some, [], ◌∷◌, ◌≡◌, refl}
use softos_sdd_orchestrator.Prelude.Int.{pos}
use softos_sdd_orchestrator.Prelude.Result.{ok, err}
use softos_sdd_orchestrator.Prelude.Strip.{is_space, lstrip, rstrip, strip}
use softos_sdd_orchestrator.Prelude.Text.{text_leb}
use softos_sdd_orchestrator.Prelude.Sort.{insert_sorted, sort}
use softos_sdd_orchestrator.Prelude.Sets.{dedupe, sorted_set}
use softos_sdd_orchestrator.Prelude.Lists.{filter}
use softos_sdd_orchestrator.Prelude.Dict.{Dict, lookup, put, sorted_items}
use softos_sdd_orchestrator.Prelude.Collect.{collect}
use softos_sdd_orchestrator.Prelude.Json.{
  Json, int, text, arr, obj, nil, item, end, field, get, get_or, stripped_text, unknown_field,
  texts_of,
}
use softos_sdd_orchestrator.AgentExecutors.Data.{
  AgentExecutor, codex, opencode, cli, acp, reject, bad_executable, duplicate_key,
}
use softos_sdd_orchestrator.AgentExecutors.Parse.{
  no_duplicates, duplicate_key_detector, is_id_char, is_id_rest, is_executor_id, is_executable_name,
  validate_executor_executable, adapter_of, executable_of, arguments, acp_executable_of,
  stated_acp_executable, auth_method_of, acp_of, stated_acp, executor_of, parse_agents_registry,
}
use softos_sdd_orchestrator.AgentExecutors.Valid.{IsRegistryOf, parse_agents_registry_sound}
use softos_sdd_orchestrator.AgentExecutors.Keys.{IsKeysOf, duplicate_key_detector_outcome}

program : Unit {0}
unfolding is_space lstrip rstrip strip text_leb insert_sorted sort dedupe sorted_set filter lookup
    put sorted_items collect get get_or stripped_text unknown_field texts_of no_duplicates
    duplicate_key_detector is_id_char is_id_rest is_executor_id is_executable_name
    validate_executor_executable adapter_of executable_of arguments acp_executable_of
    stated_acp_executable auth_method_of acp_of stated_acp executor_of parse_agents_registry
program = tt

abbrev opencode_entry : Json
opencode_entry = obj (
    field "adapter" (text " opencode ") (
      field "executable" (text "opencode") (
        field "argv" (arr (item (text "run") nil)) (
          field "transport" (text "acp")
            (field "acp" (obj (field "executable" (text "/opt/bin/acp") end)) end)))))

abbrev codex_entry : String → Json
codex_entry executable = obj (
    field "adapter" (text "codex")
      (field "executable" (text executable) (field "argv" (arr nil) end)))

abbrev config : String → Dict Json
config executable =
    (
      "agents",
      obj (
          field "schema_version" (int (pos 1)) (
            field "executors"
              (obj (field "opencode" opencode_entry (field "codex" (codex_entry executable) end)))
              end)),
    )
    ∷ []

abbrev registry : Dict AgentExecutor
registry =
    (
      "codex",
      record {
        executor_id = "codex";
        adapter = codex;
        executable = "codex";
        argv = [];
        transport = cli;
        allow_cli_fallback = false;
        permission_policy = reject;
        acp_executable = none;
        acp_argv = [];
        acp_auth_method = none;
      },
    )
    ∷ (
      "opencode",
      record {
        executor_id = "opencode";
        adapter = opencode;
        executable = "opencode";
        argv = "run" ∷ [];
        transport = acp;
        allow_cli_fallback = false;
        permission_policy = reject;
        acp_executable = some "/opt/bin/acp";
        acp_argv = [];
        acp_auth_method = none;
      },
    )
    ∷ []

parsed : parse_agents_registry (config " codex") ≡ ok registry
unfolding program
parsed = refl

relative_refused : parse_agents_registry (config "./codex") ≡ err (bad_executable "codex" "./codex")
unfolding program
relative_refused = refl

parse_agents_registry_sound_example : IsRegistryOf (config " codex") registry
parse_agents_registry_sound_example = parse_agents_registry_sound (config " codex") registry parsed

abbrev twice : Dict Json
twice =
    ("codex", codex_entry "codex")
    ∷ ("cursor", codex_entry "cursor")
    ∷ ("codex", codex_entry "codex")
    ∷ []

twice_refused : duplicate_key_detector twice ≡ err (duplicate_key "codex")
unfolding program
twice_refused = refl

duplicate_key_detector_outcome_example : IsKeysOf twice (duplicate_key_detector twice)
duplicate_key_detector_outcome_example = duplicate_key_detector_outcome twice
