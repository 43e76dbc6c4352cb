-- ===== src/Orchestrator/Persistence.antt =====
-- The records of a turn that src/assistant/core/orchestrator/persistence.py appends to its session.
use Prim.Native.String.{◌++◌ as ◌&◌}
use private_claw.Prelude.{ℕ, zero, suc, ◌+◌, String, Option, none, some, List, [], ◌∷◌, ◌++◌}
use private_claw.Store.Records.{
  SessionRecord, SessionRecordType, user_message, assistant_message, tool_result, turn_summary,
  turn_terminal, Payload, Json, null, text, nested,
}
use private_claw.Store.Session.{Outcome}
use private_claw.Store.Interface.{SessionStore}

-- TurnTerminalStatus of src/assistant/store/models.py
pub data TurnTerminalStatus : Type 0 where
  completed failed cancelled timed_out interrupted degraded suspended : TurnTerminalStatus

unfoldable pub value : TurnTerminalStatus → String
value completed = "completed"
value failed = "failed"
value cancelled = "cancelled"
value timed_out = "timed_out"
value interrupted = "interrupted"
value degraded = "degraded"
value suspended = "suspended"

-- MemoryOutcome: the call's identifier, the result by its JSON text, and the error
abbrev pub MemoryOutcome : Type 0
MemoryOutcome = String × String × Option String

-- the arguments that the four functions share, and the reading of the clock
pub record TurnIds : Type 0 where
  pub session_id : String
  pub turn_id : String
  pub now : ℕ

abbrev pub or_null : Option String → Json
or_null none = null
or_null (some s) = text s

unfoldable pub session_record : TurnIds → ℕ → String → SessionRecordType → Payload → SessionRecord
session_record ids sequence event_id record_type payload = record {
  session_id = ids.session_id;
  sequence = sequence;
  event_id = event_id;
  turn_id = ids.turn_id;
  timestamp = ids.now;
  record_type = record_type;
  payload = payload;
}

abbrev pub assistant_id : TurnIds → String
assistant_id ids = "msg-" & ids.turn_id & "-assistant"

abbrev pub terminal_id : TurnIds → String
terminal_id ids = "terminal-" & ids.turn_id

-- `attachments` is the list's JSON text
unfoldable pub user_record : TurnIds → ℕ → String → String → Option String → SessionRecord
unfolding session_record
user_record ids sequence user_text attachments user_id =
    session_record ids sequence ids.turn_id user_message (
      ("message_id", text ("msg-" & ids.turn_id & "-user"))
      ∷ ("content", text user_text)
      ∷ ("attachments", nested attachments)
      ∷ ("source_event_id", text ids.turn_id)
      ∷ ("user_id", or_null user_id)
      ∷ [])

unfoldable pub terminal_record : TurnIds → ℕ → TurnTerminalStatus → SessionRecord
unfolding session_record value
terminal_record ids sequence status =
    session_record ids sequence (terminal_id ids) turn_terminal
      (("status", text (value status)) ∷ [])

-- the assistant message that stands in for a reply
unfoldable pub assistant_record : TurnIds → ℕ → String → String → SessionRecord
unfolding session_record
assistant_record ids sequence content model_id =
    session_record ids sequence (assistant_id ids) assistant_message (
      ("message_id", text (assistant_id ids))
      ∷ ("content", text content)
      ∷ ("model_id", text model_id)
      ∷ [])

-- `capability_audit`, by its JSON text, if it is not empty; `digits` prints a number
unfoldable pub capability_audit : (ℕ → String) → ℕ → Option String → Option String
capability_audit digits zero none = none
capability_audit digits zero (some trace) = some ("{\"prompt_trace\": " & trace & "}")
capability_audit digits (suc n) none = some ("{\"invalid_memory_intents\": " & digits (suc n) & "}")
capability_audit digits (suc n) (some trace) =
    some ("{\"invalid_memory_intents\": " & digits (suc n) & ", \"prompt_trace\": " & trace & "}")

unfoldable pub summary_records : TurnIds → Option String → List SessionRecord
unfolding session_record
summary_records ids none = []
summary_records ids (some audit) =
    session_record ids 0 ("turn-summary-" & ids.turn_id) turn_summary (
      ("summary_text", text "turn diagnostics")
      ∷ ("retrieval_audit", null)
      ∷ ("capability_audit", nested audit)
      ∷ [])
    ∷ []

unfoldable pub outcome_record : TurnIds → ℕ → MemoryOutcome → SessionRecord
unfolding session_record
outcome_record ids sequence (tool_call_id, result, error) =
    session_record ids sequence ("tool-result-final-" & tool_call_id) tool_result (
      ("message_id", text ("msg-final-result-" & tool_call_id))
      ∷ ("tool_call_id", text tool_call_id)
      ∷ ("tool_name", text "memory_propose_update")
      ∷ ("result", nested result)
      ∷ ("error", or_null error)
      ∷ [])

-- the records of `persist_turn_outcomes`, numbered on
unfoldable pub outcome_records :
    TurnIds → ℕ → List MemoryOutcome → TurnTerminalStatus → List SessionRecord
unfolding outcome_record terminal_record
outcome_records ids sequence [] status = terminal_record ids sequence status ∷ []
outcome_records ids sequence (outcome ∷ outcomes) status =
    outcome_record ids sequence outcome ∷ outcome_records ids (suc sequence) outcomes status

-- the records of `persist_turn_initial` after the user's message
unfoldable pub initial_rest :
    TurnIds → (ℕ → String) → List SessionRecord → ℕ → Option String → List SessionRecord
unfolding summary_records capability_audit
initial_rest ids digits assistant_records invalid_memory_intents prompt_trace =
    assistant_records
    ++ summary_records ids (capability_audit digits invalid_memory_intents prompt_trace)

module _ {S : Type 0} (store : SessionStore S) (ids : TurnIds) where
  unfoldable pub persist_turn_initial :
      (ℕ → String)
      → String
      → List SessionRecord
      → String
      → ℕ
      → Option String
      → Option String
      → S
      → Outcome × S
  unfolding user_record initial_rest
  persist_turn_initial digits user_text assistant_records attachments invalid trace user_id =
      store.append (
        user_record ids 0 user_text attachments user_id
        ∷ initial_rest ids digits assistant_records invalid trace)

  -- `terminal_payload` is none, as every caller leaves it.
  unfoldable pub persist_turn_outcomes : List MemoryOutcome → TurnTerminalStatus → S → Outcome × S
  unfolding outcome_records
  persist_turn_outcomes outcomes status s =
      store.append (outcome_records ids (store.get_next_sequence ids.session_id s) outcomes status)
        s

  abbrev failed_content : Option String → String
  failed_content none = "[Request failed]"
  failed_content (some content) = content

  unfoldable pub persist_turn_failed :
      String → Option String → TurnTerminalStatus → Option String → String → S → Outcome × S
  unfolding user_record assistant_record terminal_record
  persist_turn_failed user_text user_id status assistant_content default_model_id s =
      let next_seq = store.get_next_sequence ids.session_id s in
      store.append
        (user_record ids next_seq user_text "[]" user_id
          ∷ assistant_record ids (next_seq + 1) (failed_content assistant_content) default_model_id
          ∷ terminal_record ids (next_seq + 2) status
          ∷ [])
        s

  unfoldable pub persist_turn_terminal_failed : TurnTerminalStatus → S → Outcome × S
  unfolding terminal_record
  persist_turn_terminal_failed status s =
      store.append (terminal_record ids (store.get_next_sequence ids.session_id s) status ∷ []) s
