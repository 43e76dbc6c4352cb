-- ===== src/Store/Recovery.antt =====
-- The recovery scan that StoreFacade of src/assistant/store/facade.py runs at startup, over the
-- sessions, the tasks and the idempotency ledger.
-- A tool call identifier is a text, as the payload models have it. An entry of `details` is the
-- numbers that its text shows.
pub mod Scan
mod Members
mod Calls
mod Answers
mod Repairs
pub mod Settled
pub mod Marker
pub mod Torn
mod Samples
use Prim.Native.Char.{Char, code}
use Prim.Native.String.{◌++◌ as ◌&◌}
use private_claw.Prelude.{
  ℕ, suc, ◌+◌, String, Option, none, some, Bool, true, false, List, [], ◌∷◌, ◌++◌, map, filter, not,
  leb, ltb, length, contains, if◌then◌else◌, ◌==◌, string_eq, nat_eq,
}
use private_claw.Prelude.Dict.{Dict, lookup, insert}
use private_claw.Store.Records.{
  SessionRecord, SessionRecordType, turn_terminal, tool_result, assistant_tool_call, Json, text,
  null, Payload, get,
}
use private_claw.Store.Session.{Sessions, next_after, append_raw, read_session, list_sessions}
use private_claw.Store.Replay.{is_terminal, is_call, is_result}
use private_claw.Store.Task.{Tasks, pending, running, list_by_status}
use private_claw.Store.Task
use private_claw.Store.Idempotency.{Ledger}
use private_claw.Store.Idempotency

pub data RecoveryStatus : Type 0 where
  healthy recovered degraded failed : RecoveryStatus

pub data Detail : Type 0 where
  repaired_turns repaired_calls : String → ℕ → Detail
  expired_tasks stale_tasks expired_idempotency : ℕ → Detail

pub record RecoveryMarker : Type 0 where
  pub component : String
  pub last_scan_at : ℕ
  pub status : RecoveryStatus
  pub issues_found : ℕ
  pub issues_repaired : ℕ
  pub details : List Detail

-- `s.add(x)` of a set, kept in the order of insertion
unfoldable pub distinct : List String → List String
distinct [] = []
distinct (x ∷ xs) = let rest = distinct xs in if contains rest x then rest else x ∷ rest

-- the order of Python's texts, by code points
unfoldable pub text_le : String → String → Bool
text_le String.[] t = true
text_le (String.◌∷◌ c s) String.[] = false
text_le (String.◌∷◌ c s) (String.◌∷◌ d t) =
    let rest = text_le s t in
    if ltb (code c) (code d) then true else if code c == code d then rest else false

unfoldable pub insert_text : String → List String → List String
insert_text x [] = x ∷ []
insert_text x (y ∷ ys) = let rest = insert_text x ys in if text_le x y then x ∷ y ∷ ys else y ∷ rest

unfoldable pub sorted_texts : List String → List String
unfolding insert_text
sorted_texts [] = []
sorted_texts (x ∷ xs) = insert_text x (sorted_texts xs)

abbrev pub terminal_turns : List SessionRecord → List String
terminal_turns rs = map (λ r. r.turn_id) (filter (λ r. is_terminal r.record_type) rs)

-- `turn_ids - terminal_turns`
unfoldable pub incomplete_turns : List SessionRecord → List String
incomplete_turns rs =
    filter (λ t. not (contains (terminal_turns rs) t)) (distinct (map (λ r. r.turn_id) rs))

abbrev pub interrupted : Payload
interrupted =
    ("status", text "interrupted")
    ∷ ("error_message", text "Turn interrupted; recovered at startup")
    ∷ []

-- a payload's identifier, if it is not empty
abbrev pub text_of : Json → Option String
text_of (text s) = if s == "" then none else some s
text_of _ = none

abbrev pub id_of : SessionRecord → Option String
id_of r = text_of (get "tool_call_id" r.payload)

-- `tool_calls[tool_call_id] = record`, with an identifier
abbrev pub put :
    Option String → SessionRecord → Dict String SessionRecord → Dict String SessionRecord
put none r calls = calls
put (some id) r calls = insert id r calls

abbrev pub add : Option String → List String → List String
add none ids = ids
add (some id) ids = id ∷ ids

-- the loop of `_create_orphan_tool_results`: the calls, and the identifiers of the results
unfoldable pub tool_calls :
    Dict String SessionRecord → List SessionRecord → Dict String SessionRecord
tool_calls calls [] = calls
tool_calls calls (r ∷ rs) =
    tool_calls (if is_call r.record_type then put (id_of r) r calls else calls) rs

unfoldable pub result_ids : List SessionRecord → List String
result_ids [] = []
result_ids (r ∷ rs) =
    let rest = result_ids rs in if is_result r.record_type then add (id_of r) rest else rest

abbrev pub keys : Dict String SessionRecord → List String
keys calls = map (λ e. e.0) calls

-- `set(tool_calls.keys()) - result_ids`
unfoldable pub orphan_ids : List SessionRecord → List String
orphan_ids rs = filter (λ id. not (contains (result_ids rs) id)) (keys (tool_calls [] rs))

-- `payload.get("tool_name", "unknown")`
abbrev pub tool_name_of : Payload → Json
tool_name_of payload = elim (lookup "tool_name" payload) [ none ↦ text "unknown" | some v ↦ v ]

-- `stamp` is the text of `now.timestamp()`.
module _ (stamp : ℕ → String) where
  abbrev pub terminal_record : String → ℕ → ℕ → String → SessionRecord
  terminal_record session_id now next turn_id = record {
    session_id = session_id;
    sequence = next;
    event_id = "recovery-terminal-" & turn_id & "-" & stamp now;
    turn_id = turn_id;
    timestamp = now;
    record_type = turn_terminal;
    payload = interrupted;
  }

  -- the loop of `_create_synthetic_terminals`
  unfoldable pub terminals : String → ℕ → ℕ → List String → List SessionRecord
  terminals session_id now next [] = []
  terminals session_id now next (turn_id ∷ ids) =
      terminal_record session_id now next turn_id ∷ terminals session_id now (suc next) ids

  unfoldable pub create_synthetic_terminals :
      String → ℕ → List SessionRecord → List String → List SessionRecord
  unfolding terminals
  create_synthetic_terminals session_id now existing incomplete =
      terminals session_id now (next_after existing) (sorted_texts incomplete)

  abbrev pub result_record : String → ℕ → ℕ → String → SessionRecord → SessionRecord
  result_record session_id now next id source = record {
    session_id = session_id;
    sequence = next;
    event_id = "recovery-tool-result-" & id & "-" & stamp now;
    turn_id = source.turn_id;
    timestamp = now;
    record_type = tool_result;
    payload =
        ("message_id", text ("recovery-result-" & id))
        ∷ ("tool_call_id", text id)
        ∷ ("tool_name", tool_name_of source.payload)
        ∷ ("result", null)
        ∷ ("error", text "interrupted")
        ∷ [];
  }

  -- the second loop of `_create_orphan_tool_results`; each identifier is a key of the calls
  unfoldable pub results :
      String → ℕ → ℕ → Dict String SessionRecord → List String → List SessionRecord
  results session_id now next calls [] = []
  results session_id now next calls (id ∷ ids) =
      let rest = results session_id now (suc next) calls ids in
      elim (lookup id calls) [
        | none ↦ rest
        | some source ↦ result_record session_id now next id source ∷ rest
      ]

  unfoldable pub create_orphan_tool_results : String → ℕ → List SessionRecord → List SessionRecord
  unfolding results
  create_orphan_tool_results session_id now rs =
      results session_id now (next_after rs) (tool_calls [] rs) (sorted_texts (orphan_ids rs))
