-- ===== src/Store/Records.antt =====
-- The session records of src/assistant/store/models.py. A payload is a dict of JSON values; an
-- array or an object inside it is taken by its JSON text, and numbers are natural.
use private_claw.Prelude.{
  ℕ, zero, suc, String, Bool, true, false, none, some, Eq, ◌==◌, ◌&&◌, not, string_eq, ℕ_discrete,
  string_discrete,
}
use private_claw.Prelude.Dict.{Dict, lookup}

pub data SessionRecordType : Type 0 where
  user_message assistant_message assistant_tool_call tool_result : SessionRecordType
  system_message turn_summary turn_terminal compaction_summary : SessionRecordType

pub SessionRecordType-discrete : Discrete SessionRecordType
SessionRecordType-discrete = hlevel

pub data Json : Type 0 where
  null : Json
  boolean : Bool → Json
  number : ℕ → Json
  text : String → Json
  nested : String → Json

unfoldable pub Json-discrete : Discrete Json
Json-discrete = hlevel (ℕ_discrete, string_discrete)

instance abbrev pub json_eq : Eq Json
json_eq = record { dec = Json-discrete }

-- `bool(value)`; an array or object is empty when its text is
abbrev pub truthy : Json → Bool
truthy null = false
truthy (boolean b) = b
truthy (number zero) = false
truthy (number (suc _)) = true
truthy (text s) = not (s == "")
truthy (nested s) = not (s == "[]") && not (s == "{}")

abbrev pub Payload : Type 0
Payload = Dict String Json

-- `payload.get(key)`
unfoldable pub get : String → Payload → Json
get key payload = elim (lookup key payload) [ none ↦ null | some v ↦ v ]

pub record SessionRecord : Type 0 where
  pub session_id : String
  pub sequence : ℕ
  pub event_id : String
  pub turn_id : String
  pub timestamp : ℕ
  pub record_type : SessionRecordType
  pub payload : Payload
