-- ===== src/Capabilities.antt =====
-- The capabilities that a session has enabled: src/assistant/core/capabilities/loader.py. The
-- manifests are taken as read; a server's specification stands as its JSON text.
mod Undone
pub mod Expand
pub mod Collect
mod Samples
use private_claw.Prelude.{
  ◌&&◌, ℕ, zero, suc, String, Option, none, some, Bool, true, false, List, [], ◌∷◌, ◌++◌, length,
  contains, if◌then◌else◌, string_eq,
}
use private_claw.Prelude.Dict.{Dict, lookup, insert}
use private_claw.Store.Files.{Document, malformed, holds}

pub record ClaudeCodeSettings : Type 0 where
  pub allow : List String
  pub deny : List String
  pub mcp_servers : Dict String String

pub record CapabilityDefinition : Type 0 where
  pub nested_capabilities : List String
  pub mcp_servers : List String
  pub claude_code_settings : Option ClaudeCodeSettings

abbrev pub Definitions : Type 0
Definitions = Dict String CapabilityDefinition

-- `definition.nested_capabilities`, with a definition
unfoldable pub nested_of : Definitions → String → List String
nested_of definitions id = elim (lookup id definitions) [
  | none ↦ []
  | some d ↦ d.nested_capabilities
]

-- The loops that call `_expand`. `seen` and `result` hold the same identifiers, so `result` stands
-- for both. The recursion goes down on fuel, which `expand_nested_capabilities` chooses.
unfoldable pub expand : Definitions → ℕ → List String → List String → List String
expand definitions fuel [] result = result
expand definitions zero (id ∷ ids) result = result
expand definitions (suc fuel) (id ∷ ids) result =
    let inner = expand definitions fuel (nested_of definitions id) (result ++ id ∷ []) in
    expand definitions (suc fuel) ids (if contains result id then result else inner)

-- The fuel is one more than there are definitions.
unfoldable pub expand_nested_capabilities : List String → Definitions → List String
unfolding expand nested_of
expand_nested_capabilities enabled definitions =
    expand definitions (suc (length definitions)) enabled []

-- `for x in xs: if x not in acc: acc.append(x)`
unfoldable pub add_new : List String → List String → List String
add_new acc [] = acc
add_new acc (x ∷ xs) = add_new (if contains acc x then acc else acc ++ x ∷ []) xs

unfoldable pub collect_from : Definitions → List String → List String → List String
unfolding add_new
collect_from definitions acc [] = acc
collect_from definitions acc (id ∷ ids) =
    collect_from definitions
      (elim (lookup id definitions) [ none ↦ acc | some d ↦ add_new acc d.mcp_servers ]) ids

unfoldable pub collect_mcp_server_ids : Definitions → List String → List String
unfolding collect_from
collect_mcp_server_ids definitions enabled = collect_from definitions [] enabled

-- `definitions.get(cap_id)` with settings
abbrev pub settings_in : Option CapabilityDefinition → Option ClaudeCodeSettings
settings_in none = none
settings_in (some d) = d.claude_code_settings

-- `for name, spec in ...items(): merged[name] = spec`
unfoldable pub merge_servers : Dict String String → Dict String String → Dict String String
merge_servers merged [] = merged
merge_servers merged ((name, spec) ∷ servers) = merge_servers (insert name spec merged) servers

unfoldable pub merge_from : Definitions → Dict String String → List String → Dict String String
unfolding merge_servers
merge_from definitions merged [] = merged
merge_from definitions merged (id ∷ ids) =
    merge_from definitions
      (elim (settings_in (lookup id definitions)) [
        | none ↦ merged
        | some c ↦ merge_servers merged c.mcp_servers
      ])
      ids

unfoldable pub collect_claude_code_mcp_servers : Definitions → List String → Dict String String
unfolding merge_from
collect_claude_code_mcp_servers definitions enabled = merge_from definitions [] enabled

-- the merge of `perms.allow`, or of `perms.deny`, of the enabled capabilities
unfoldable pub merge_entries :
    (ClaudeCodeSettings → List String) → Definitions → List String → List String → List String
unfolding add_new
merge_entries field definitions merged [] = merged
merge_entries field definitions merged (id ∷ ids) =
    merge_entries field definitions
      (elim (settings_in (lookup id definitions)) [
        | none ↦ merged
        | some c ↦ add_new merged (field c)
      ])
      ids

-- The settings file: what stands under `permissions.allow`, `permissions.deny` and `mcpServers`, and
-- the rest of it as a text. A file that cannot be read counts as empty.
pub record SettingsFile : Type 0 where
  pub allow : Option (List String)
  pub deny : Option (List String)
  pub mcp_servers_key : Option (Dict String String)
  pub other_keys : String

abbrev pub no_settings : SettingsFile
no_settings = record { allow = none; deny = none; mcp_servers_key = none; other_keys = "" }

abbrev pub is_empty {ℓ} : {A : Type ℓ} → List A → Bool
is_empty [] = true
is_empty (_ ∷ _) = false

abbrev pub existing_of : Option (Document SettingsFile) → SettingsFile
existing_of none = no_settings
existing_of (some malformed) = no_settings
existing_of (some (holds f)) = f

unfoldable pub with_permissions : List String → List String → SettingsFile → SettingsFile
with_permissions allow deny f =
    if is_empty allow && is_empty deny then f else record f { allow = some allow; deny = some deny }

unfoldable pub with_servers : Dict String String → SettingsFile → SettingsFile
with_servers servers f = if is_empty servers then f else record f { mcp_servers_key = some servers }

unfoldable pub apply_claude_code_settings :
    Definitions → List String → Option (Document SettingsFile) → Option (Document SettingsFile)
unfolding merge_entries collect_claude_code_mcp_servers with_permissions with_servers
apply_claude_code_settings definitions enabled file =
    let allow = merge_entries (λ c. c.allow) definitions [] enabled in
    let deny = merge_entries (λ c. c.deny) definitions [] enabled in
    let servers = collect_claude_code_mcp_servers definitions enabled in
    if is_empty allow && is_empty deny && is_empty servers
    then file
    else some (holds (with_servers servers (with_permissions allow deny (existing_of file))))
