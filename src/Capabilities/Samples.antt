-- ===== src/Capabilities/Samples.antt =====
-- Runs of the capability loader on small inputs.
use private_claw.Prelude.{
  String, ◌≡◌, refl, Option, none, some, true, List, [], ◌∷◌, contains, All, string_eq,
  string_discrete,
}
use private_claw.Prelude.Dict.{lookup, insert}
use private_claw.Store.Files.{Document, holds}
use private_claw.Capabilities.{
  CapabilityDefinition, Definitions, SettingsFile, nested_of, expand, expand_nested_capabilities,
  add_new, collect_from, collect_mcp_server_ids, merge_servers, merge_from,
  collect_claude_code_mcp_servers, merge_entries, with_permissions, with_servers,
  apply_claude_code_settings,
}
use private_claw.Capabilities.Expand.{IsGranted, HasNoTwice, expand_nested_capabilities_lem}

abbrev nesting : List String → List String → CapabilityDefinition
nesting nested servers = record {
  nested_capabilities = nested;
  mcp_servers = servers;
  claude_code_settings = some (record { allow = "Bash" ∷ []; deny = []; mcp_servers = [] });
}

-- "a" and "b" nest each other, and "c" has no definition.
abbrev definitions : Definitions
definitions =
    ("a", nesting ("b" ∷ []) ("files" ∷ []))
    ∷ ("b", nesting ("c" ∷ "a" ∷ []) ("web" ∷ "files" ∷ []))
    ∷ []

program : Unit {0}
unfolding expand_nested_capabilities expand nested_of add_new collect_from collect_mcp_server_ids
    merge_servers merge_from collect_claude_code_mcp_servers merge_entries with_permissions
    with_servers apply_claude_code_settings lookup insert string_discrete
program = tt

goes_round_once : expand_nested_capabilities ("a" ∷ []) definitions ≡ "a" ∷ "b" ∷ "c" ∷ []
unfolding program
goes_round_once = refl

collects_each_once : collect_mcp_server_ids definitions ("a" ∷ "b" ∷ []) ≡ "files" ∷ "web" ∷ []
unfolding program
collects_each_once = refl

expand_nested_capabilities_lem_example :
    let result = expand_nested_capabilities ("a" ∷ []) definitions in
    ((x : String) → contains ("a" ∷ []) x ≡ true → contains result x ≡ true)
    × ((x y : String)
        → contains result x ≡ true
        → contains (nested_of definitions x) y ≡ true
        → contains result y ≡ true)
    × All (IsGranted ("a" ∷ []) definitions) result
    × HasNoTwice result
expand_nested_capabilities_lem_example = expand_nested_capabilities_lem ("a" ∷ []) definitions

abbrev on_file : Option (Document SettingsFile)
on_file =
    some
      (holds (record { allow = none; deny = none; mcp_servers_key = none; other_keys = "theme" }))
