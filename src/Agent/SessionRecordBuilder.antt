-- ===== src/Agent/SessionRecordBuilder.antt =====
-- _new_messages_to_session_records of src/assistant/agent/session_record_builder.py, over
-- _parse_tool_result_content of src/assistant/agent/message_converters.py.
pub mod Turn
use Prim.Native.String.{◌++◌ as ◌&◌}
use private_claw.Prelude.{
  ℕ, zero, suc, String, Option, none, some, List, [], ◌∷◌, ◌++◌, if◌then◌else◌, ◌==◌, ◌&&◌,
  string_eq,
}
use private_claw.Prelude.Dict.{insert}
use private_claw.Store.Records.{
  SessionRecord, SessionRecordType, assistant_message, assistant_tool_call, tool_result, Payload,
  null, text, nested,
}
use private_claw.Subagents.Params.{strip}
use private_claw.Agent.Messages.{
  ToolContent, dict_content, list_content, scalar_content, text_content, other_content, Texts,
  ResponsePart, text_part, tool_call_part, RequestPart, tool_return_part, ModelMessage,
  model_response, model_request, TurnInfo,
}

abbrev pub memory_tool_name : String
memory_tool_name = "memory_propose_update"

-- the contents of the text parts of a response
unfoldable pub text_parts : List ResponsePart → List String
text_parts [] = []
text_parts (text_part content ∷ parts) = content ∷ text_parts parts
text_parts (_ ∷ parts) = text_parts parts

-- `" ".join(p.content for p in text_parts if p.content)`
unfoldable pub join_filled : List String → String
join_filled [] = ""
join_filled (s ∷ ss) =
    let rest = join_filled ss in if s == "" then rest else if rest == "" then s else s & " " & rest

-- a record of the turn, with sequence 0, which the store renumbers
unfoldable pub turn_record : TurnInfo → SessionRecordType → String → Payload → SessionRecord
turn_record info record_type event_id payload = record {
  session_id = info.session_id;
  sequence = 0;
  event_id = event_id;
  turn_id = info.turn_id;
  timestamp = info.timestamp;
  record_type = record_type;
  payload = payload;
}

abbrev with_model_id : Option String → Payload → Payload
with_model_id none p = p
with_model_id (some s) p = if s == "" then p else insert "model_id" (text s) p

abbrev with_user_id : Option String → Payload → Payload
with_user_id none p = p
with_user_id (some s) p = insert "user_id" (text s) p

-- `assistant_idx` counts the assistant messages so far
abbrev with_usage : ℕ → TurnInfo → Payload → Payload
with_usage (suc _) info p = p
with_usage zero info p = elim info.usage [
  | none ↦ p
  | some usage ↦ with_user_id info.user_id (insert "usage" (nested usage) p)
]

unfoldable pub call_records : TurnInfo → List ResponsePart → List SessionRecord
unfolding turn_record
call_records info [] = []
call_records info (tool_call_part tool_call_id tool_name args_json ∷ parts) =
    turn_record info assistant_tool_call ("assistant-tool-call-" & tool_call_id) (
      ("message_id", text ("msg-" & tool_call_id))
      ∷ ("tool_call_id", text tool_call_id)
      ∷ ("tool_name", text tool_name)
      ∷ ("arguments_json", text args_json)
      ∷ [])
    ∷ call_records info parts
call_records info (_ ∷ parts) = call_records info parts

module _ (t : Texts) where
  unfoldable pub coerce_tool_result : ToolContent → String
  coerce_tool_result (dict_content s) = s
  coerce_tool_result (list_content s) = "{\"results\": " & s & "}"
  coerce_tool_result (scalar_content s) = "{\"result\": " & s & "}"
  coerce_tool_result (text_content s) = "{\"result\": " & t.dumps s & "}"
  coerce_tool_result (other_content s) = "{\"result\": " & t.dumps s & "}"

  unfoldable pub parse_tool_result_content : ToolContent → String
  unfolding coerce_tool_result
  parse_tool_result_content (text_content s) = elim (t.loads s) [
    | none ↦ "{\"result\": " & t.dumps s & "}"
    | some parsed ↦ coerce_tool_result parsed
  ]
  parse_tool_result_content content = coerce_tool_result content

  unfoldable pub message_id_of : String → ℕ → String
  message_id_of assistant_msg_id zero = assistant_msg_id
  message_id_of assistant_msg_id (suc n) = assistant_msg_id & "-" & t.digits (suc n)

  -- the assistant message of a response that has text parts
  text_records : TurnInfo → ℕ → List String → List SessionRecord
  unfolding turn_record message_id_of
  text_records info assistant_idx [] = []
  text_records info assistant_idx (s ∷ ss) =
      let msg_id = message_id_of info.assistant_msg_id assistant_idx in
      turn_record info assistant_message msg_id (
        with_usage assistant_idx info (
          with_model_id info.model_id (
            ("message_id", text msg_id)
            ∷ ("content", text (strip t.is_space (join_filled (s ∷ ss))))
            ∷ [])))
      ∷ []

  next_idx : ℕ → List String → ℕ
  next_idx assistant_idx [] = assistant_idx
  next_idx assistant_idx (_ ∷ _) = suc assistant_idx

  unfoldable pub return_records : TurnInfo → List RequestPart → List SessionRecord
  unfolding turn_record parse_tool_result_content
  return_records info [] = []
  return_records info (tool_return_part tool_call_id tool_name retried content ∷ parts) =
      let rest = return_records info parts in
      if retried
      then rest
      else if info.skip_memory_tool_results && tool_name == memory_tool_name
      then rest
      else turn_record info tool_result ("tool-result-" & tool_call_id) (
          ("message_id", text ("msg-result-" & tool_call_id))
          ∷ ("tool_call_id", text tool_call_id)
          ∷ ("tool_name", text tool_name)
          ∷ ("result", nested (parse_tool_result_content content))
          ∷ ("error", null)
          ∷ [])
        ∷ rest
  return_records info (_ ∷ parts) = return_records info parts

  -- the loop over the messages
  unfoldable pub records_from : TurnInfo → ℕ → List ModelMessage → List SessionRecord
  unfolding text_parts text_records next_idx
  records_from info assistant_idx [] = []
  records_from info assistant_idx (model_response parts ∷ messages) =
      let texts = text_parts parts in
      text_records info assistant_idx texts
      ++ call_records info parts
      ++ records_from info (next_idx assistant_idx texts) messages
  records_from info assistant_idx (model_request parts ∷ messages) =
      return_records info parts ++ records_from info assistant_idx messages

  unfoldable pub new_messages_to_session_records : TurnInfo → List ModelMessage → List SessionRecord
  unfolding records_from
  new_messages_to_session_records info = records_from info 0
