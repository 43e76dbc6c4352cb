-- ===== src/Context/Overrides.antt =====
-- ActiveSessionContextService of src/assistant/core/session_context/service.py and
-- SessionModelContextService of src/assistant/core/session_context/model_context.py: a dict from
-- contexts to identifiers, both stripped, that is saved as a whole after a change.
pub mod Refines
pub mod Saved
use Prim.Native.Char.{Char}
use private_claw.Prelude.{
  String, Option, none, some, Bool, List, [], ◌∷◌, map, if◌then◌else◌, ◌==◌, ◌||◌, string_eq,
}
use private_claw.Prelude.Dict.{Dict, lookup, insert, erase}
use private_claw.Subagents.Params.{strip}

-- a value of the file's object: a text, or one of another type
pub data Entry : Type 0 where
  text_entry : String → Entry
  other_entry : Entry

-- The service: its dict, whether a save reaches its file, and the file behind it: none without a path
-- or a file, an object otherwise. A save does not reach the file where there is no path, nor where
-- the write raises OSError, which is logged. A file that cannot be read, or holds no object, gives an
-- empty dict, as no file does.
pub record Service : Type 0 where
  pub entries : Dict String String
  pub writable : Bool
  pub file : Option (Dict String Entry)

abbrev saved : Dict String String → Dict String Entry
saved [] = []
saved ((k, v) ∷ d) = (k, text_entry v) ∷ saved d

module _ (is_space : Char → Bool) where
  -- a change of the dict, and `_save`
  unfoldable pub save : Dict String String → Service → Service
  save entries s = record s {
    entries = entries;
    file = if s.writable then some (saved entries) else s.file;
  }

  abbrev filled : Option String → Option String
  filled none = none
  filled (some value) =
      let normalized = strip is_space value in if normalized == "" then none else some normalized

  -- the active session looks its context up as it is given
  unfoldable pub get_active_session : String → Service → Option String
  get_active_session context_id s = filled (lookup context_id s.entries)

  unfoldable pub get_model_override : String → Service → Option String
  get_model_override context_id s = filled (lookup (strip is_space context_id) s.entries)

  -- `set_active_session` and `set_model_override`, which are alike
  unfoldable pub set_override : String → String → Service → Service
  unfolding save
  set_override context_id value s =
      let context' = strip is_space context_id in
      let value' = strip is_space value in
      if context' == "" || value' == "" then s else save (insert context' value' s.entries) s

  -- `pop`, and a save only if something was removed
  popped : String → Option String → Service → Service
  unfolding save
  popped context_id none s = s
  popped context_id (some _) s = save (erase context_id s.entries) s

  unfoldable pub clear_active_session : String → Service → Service
  unfolding popped
  clear_active_session context_id s =
      let context' = strip is_space context_id in
      if context' == "" then s else popped context' (lookup context' s.entries) s

  unfoldable pub clear_model_override : String → Service → Service
  unfolding save
  clear_model_override context_id s =
      let context' = strip is_space context_id in
      if context' == "" then s else save (erase context' s.entries) s

  add_loaded : String → String → Dict String String → Dict String String
  add_loaded context' value' loaded =
      if context' == "" || value' == "" then loaded else insert context' value' loaded

  -- the loop of `_load`, which both services have
  unfoldable pub load_entries : Dict String String → Dict String Entry → Dict String String
  unfolding add_loaded
  load_entries loaded [] = loaded
  load_entries loaded ((context_id, text_entry value) ∷ raw) =
      load_entries (add_loaded (strip is_space context_id) (strip is_space value) loaded) raw
  load_entries loaded ((context_id, other_entry) ∷ raw) = load_entries loaded raw

  -- the constructor, over the file that is there
  unfoldable pub load : Bool → Option (Dict String Entry) → Service
  unfolding load_entries
  load writable none = record { entries = []; writable = writable; file = none }
  load writable (some raw) = record {
    entries = load_entries [] raw;
    writable = writable;
    file = some raw;
  }

unfoldable pub list_context_ids : Service → List String
list_context_ids s = map (λ e. e.0) s.entries
