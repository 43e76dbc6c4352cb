-- ===== src/Capabilities/Collect.antt =====
-- What src/assistant/core/capabilities/loader.py collects from the enabled capabilities.
use private_claw.Prelude.{
  String, ◌≡◌, Option, none, some, Bool, false, List, [], ◌∷◌, ◌++◌, any, contains, contains-append,
  arith, ◌||◌, string_eq, Bool-cases, inl, inr, Option-cases,
}
use private_claw.Prelude.Dict.{lookup}
use private_claw.Store.Files.{Document}
use private_claw.Capabilities.{
  CapabilityDefinition, Definitions, SettingsFile, add_new, collect_from, collect_mcp_server_ids,
  with_permissions, with_servers, apply_claude_code_settings, existing_of,
}
use private_claw.Capabilities.Expand.{HasNoTwice, HasNoTwice-snoc}

contains-add_new :
    (acc xs : List String) (a : String)
    → contains (add_new acc xs) a ≡ (contains acc a || contains xs a)
unfolding add_new
contains-add_new acc [] a = ground arith
contains-add_new acc (x ∷ xs) a = elim (Bool-cases (contains acc x)) [
  | inl e ↦ ground (arith, e, contains-add_new acc xs a)
  | inr e ↦ ground (arith, e, contains-add_new (acc ++ x ∷ []) xs a, contains-append acc (x ∷ []) a)
]

add_new-HasNoTwice : (acc xs : List String) → HasNoTwice acc → HasNoTwice (add_new acc xs)
unfolding add_new
add_new-HasNoTwice acc [] h = h
add_new-HasNoTwice acc (x ∷ xs) h = elim (Bool-cases (contains acc x)) [
  | inl e ↦ rw e (add_new-HasNoTwice acc xs h)
  | inr e ↦ rw e (add_new-HasNoTwice (acc ++ x ∷ []) xs (HasNoTwice-snoc acc x e h))
]

-- whether a capability grants a server
abbrev pub grants : Option CapabilityDefinition → String → Bool
grants none server = false
grants (some d) server = contains d.mcp_servers server

contains-collect_from :
    (definitions : Definitions) (acc ids : List String) (server : String)
    → contains (collect_from definitions acc ids) server
      ≡ (contains acc server || any (λ id. grants (lookup id definitions) server) ids)
unfolding collect_from
contains-collect_from definitions acc [] server = ground arith
contains-collect_from definitions acc (id ∷ ids) server =
    elim (Option-cases (lookup id definitions)) [
      | inl e ↦ ground (arith, e, contains-collect_from definitions acc ids server)
      | inr (d, e) ↦ ground (
        arith,
        e,
        contains-collect_from definitions (add_new acc d.mcp_servers) ids server,
        contains-add_new acc d.mcp_servers server,
      )
    ]

collect_from-HasNoTwice :
    (definitions : Definitions) (acc ids : List String)
    → HasNoTwice acc
    → HasNoTwice (collect_from definitions acc ids)
unfolding collect_from
collect_from-HasNoTwice definitions acc [] h = h
collect_from-HasNoTwice definitions acc (id ∷ ids) h = elim (Option-cases (lookup id definitions)) [
  | inl e ↦ rw e (collect_from-HasNoTwice definitions acc ids h)
  | inr (d, e) ↦ rw e (
      collect_from-HasNoTwice definitions (add_new acc d.mcp_servers) ids
        (add_new-HasNoTwice acc d.mcp_servers h))
]

-- The servers collected are exactly those that an enabled capability with a definition grants, each
-- once.
pub collect_mcp_server_ids_lem :
    (definitions : Definitions) (enabled : List String)
    → ((server : String)
        → contains (collect_mcp_server_ids definitions enabled) server
          ≡ any (λ id. grants (lookup id definitions) server) enabled)
      × HasNoTwice (collect_mcp_server_ids definitions enabled)
unfolding collect_mcp_server_ids
collect_mcp_server_ids_lem definitions enabled = (
  (λ server. contains-collect_from definitions [] enabled server),
  collect_from-HasNoTwice definitions [] enabled tt,
)

-- Applying the settings of the same capabilities a second time changes nothing, and a file keeps
-- what stands under its other keys.
pub apply_claude_code_settings_lem :
    (definitions : Definitions) (enabled : List String) (file : Option (Document SettingsFile))
    → let applied = apply_claude_code_settings definitions enabled file in
      (apply_claude_code_settings definitions enabled applied ≡ applied)
      × ((existing_of applied).other_keys ≡ (existing_of file).other_keys)
unfolding apply_claude_code_settings with_permissions with_servers
apply_claude_code_settings_lem definitions enabled file = ground arith
