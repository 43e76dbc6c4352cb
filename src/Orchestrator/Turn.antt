-- ===== src/Orchestrator/Turn.antt =====
-- How a turn ends: _run_turn_pydantic_ai of src/assistant/core/orchestrator/service.py, from the
-- call of the adapter on.
use Prim.Native.String.{◌++◌ as ◌&◌}
use private_claw.Prelude.{
  String, Option, none, some, Bool, true, false, List, [], ◌∷◌, ◌++◌, any, contains, if◌then◌else◌,
  ◌==◌, string_eq,
}
use private_claw.Store.Records.{
  SessionRecord, SessionRecordType, assistant_message, nested, text, Payload,
}
use private_claw.Store.Session.{Outcome, done, value_error}
use private_claw.Store.Interface.{SessionStore}
use private_claw.Agent.Messages.{ModelMessage, Texts, TurnInfo}
use private_claw.Agent.SessionRecordBuilder.{new_messages_to_session_records}
use private_claw.Orchestrator.Persistence.{
  TurnIds, TurnTerminalStatus, completed, cancelled, degraded, failed, assistant_id, session_record,
  assistant_record, persist_turn_initial, persist_turn_outcomes, persist_turn_failed,
  persist_turn_terminal_failed,
}
use private_claw.Orchestrator.Memory.{MemoryIntentPlan, Writer, apply_approved_memory_intents}

-- How `adapter.run_turn` ends: a reply with the new messages, their memory plans and the usage, a
-- cancellation with the messages so far, none if there are none, a failed tool call that still has
-- a text, the two failures that the code names, by the text that it puts in the log, or another
-- exception.
pub data AdapterOutcome (I : Type 0) : Type 0 where
  replied :
      (response_text : String)
      → List ModelMessage
      → List (MemoryIntentPlan I)
      → Option String
      → AdapterOutcome I
  turn_cancelled : List ModelMessage → AdapterOutcome I
  tool_call_failed : (recovered_text : String) → List ModelMessage → AdapterOutcome I
  unexpected_model_behavior model_http_error : String → AdapterOutcome I
  other_exception : AdapterOutcome I

-- what a call raises
pub data Fault : Type 0 where
  cancelled_error unexpected_behavior http_error other_error : Fault
  persist_error lock_acquisition_error session_not_found_error : Fault

pub data Result (A : Type 0) : Type 0 where
  returned : A → Result A
  raised : Fault → Result A

-- What a turn is run with. `model_id` is the model that was chosen, `prompt_trace` the trace's JSON
-- text where the configuration asks for one, `attachments` the JSON text of the list.
pub record TurnInput : Type 0 where
  pub ids : TurnIds
  pub user_content : String
  pub attachments : String
  pub user_id : Option String
  pub model_id : String
  pub default_model_id : String
  pub prompt_trace : Option String

abbrev pub is_assistant_message : SessionRecordType → Bool
is_assistant_message assistant_message = true
is_assistant_message _ = false

-- `model_id_override or default`, if it is in the allowlist
unfoldable pub choose_model : List String → String → Option String → String
choose_model allowlist default_model_id none = default_model_id
choose_model allowlist default_model_id (some override) =
    if override == ""
    then default_model_id
    else if contains allowlist override
    then override
    else default_model_id

unfoldable pub turn_info : TurnInput → Option String → Option String → TurnInfo
turn_info input usage user_id = record {
  session_id = input.ids.session_id;
  turn_id = input.ids.turn_id;
  timestamp = input.ids.now;
  assistant_msg_id = assistant_id input.ids;
  model_id = some input.model_id;
  usage = usage;
  user_id = user_id;
  skip_memory_tool_results = true;
}

with_usage : Option String → Payload → Payload
with_usage none p = p
with_usage (some usage) p = p ++ ("usage", nested usage) ∷ []

with_user : Option String → Payload → Payload
with_user none p = p
with_user (some user_id) p = p ++ ("user_id", text user_id) ∷ []

unfoldable pub or_fallback :
    TurnInput → String → Option String → List SessionRecord → List SessionRecord
unfolding with_usage with_user session_record
or_fallback input response_text usage [] =
    session_record input.ids 0 (assistant_id input.ids) assistant_message (
      with_user input.user_id (
        with_usage usage (
          ("message_id", text (assistant_id input.ids))
          ∷ ("content", text response_text)
          ∷ ("model_id", text input.model_id)
          ∷ [])))
    ∷ []
or_fallback input response_text usage (r ∷ rs) = r ∷ rs

module _ (t : Texts) where
  -- the records of the messages so far, with an assistant message at least
  unfoldable pub partial_records : TurnInput → String → List ModelMessage → List SessionRecord
  unfolding turn_info assistant_record
  partial_records input content messages =
      let records =
        new_messages_to_session_records t (turn_info input none input.user_id) messages in
      if any (λ r. is_assistant_message r.record_type) records
      then records
      else records ++ assistant_record input.ids 0 content input.model_id ∷ []

  -- the records of a reply, with `fallback_payload` where the messages give none
  unfoldable pub reply_records :
      TurnInput → String → Option String → List ModelMessage → List SessionRecord
  unfolding turn_info or_fallback
  reply_records input response_text usage messages =
      or_fallback input response_text usage
        (new_messages_to_session_records t (turn_info input usage input.user_id) messages)

-- `writer` is the memory writer, if there is one, on a state of its own.
module _ {S I M : Type 0} (store : SessionStore S) (t : Texts) (writer : Option (Writer I M))
    (input : TurnInput) where
  unfoldable pub then_outcomes : TurnTerminalStatus → Outcome × S → S
  unfolding persist_turn_outcomes
  then_outcomes status (done, s) = (persist_turn_outcomes store input.ids [] status s).1
  then_outcomes status (value_error, s) = s

  -- `persist_turn_initial` and then, if it did not raise, `persist_turn_outcomes` without outcomes;
  -- what is raised is logged
  unfoldable pub persist_partial : TurnTerminalStatus → List SessionRecord → S → S
  unfolding persist_turn_initial then_outcomes
  persist_partial status records s = then_outcomes status (
      persist_turn_initial store input.ids t.digits input.user_content records "[]" 0 none
        input.user_id s)

  unfoldable pub persist_failed : TurnTerminalStatus → Option String → S → S
  unfolding persist_turn_failed
  persist_failed status content s =
      (persist_turn_failed store input.ids input.user_content input.user_id status content
        input.default_model_id s).1

  -- the `except asyncio.CancelledError` branch
  unfoldable pub end_cancelled : List ModelMessage → S → S
  unfolding persist_partial persist_failed
  end_cancelled [] s = persist_failed cancelled (some "[Turn cancelled by user]") s
  end_cancelled (message ∷ messages) s =
      persist_partial cancelled
        (partial_records t input "[Turn cancelled by user]" (message ∷ messages)) s

  -- after `persist_turn_outcomes` of a reply
  unfoldable pub after_outcomes : String → Outcome × S → Result String × S
  unfolding persist_turn_terminal_failed
  after_outcomes response_text (done, s) = (returned response_text, s)
  after_outcomes response_text (value_error, s) =
      (raised persist_error, (persist_turn_terminal_failed store input.ids failed s).1)

  -- after `persist_turn_initial` of a reply
  unfoldable pub after_initial :
      String → List (MemoryIntentPlan I) → M → Outcome × S → Result String × (S × M)
  unfolding persist_turn_outcomes after_outcomes persist_failed apply_approved_memory_intents
  after_initial response_text plans m (done, s) =
      let (outcomes, m') = apply_approved_memory_intents t.dumps writer plans m in
      let (result, s') =
        after_outcomes response_text (persist_turn_outcomes store input.ids outcomes completed s) in
      (result, (s', m'))
  after_initial response_text plans m (value_error, s) =
      (raised persist_error, (persist_failed failed none s, m))

  -- the `try` at the end, which persists a reply
  unfoldable pub end_reply :
      String → List SessionRecord → List (MemoryIntentPlan I) → S × M → Result String × (S × M)
  unfolding persist_turn_initial after_initial
  end_reply response_text records plans (s, m) = after_initial response_text plans m (
      persist_turn_initial store input.ids t.digits input.user_content records input.attachments 0
        input.prompt_trace input.user_id s)

  abbrev pub recovered : String → String
  recovered said =
      if said == ""
      then "I encountered a tool error and could not complete the action. "
        & "Please try again or rephrase your request."
      else said

  unfoldable pub end_turn : AdapterOutcome I → S × M → Result String × (S × M)
  unfolding end_cancelled end_reply reply_records persist_partial persist_failed
  end_turn (replied response_text messages plans usage) w =
      end_reply response_text (reply_records t input response_text usage messages) plans w
  end_turn (turn_cancelled messages) (s, m) =
      (raised cancelled_error, (end_cancelled messages s, m))
  end_turn (tool_call_failed recovered_text messages) (s, m) =
      let content = recovered recovered_text in
      (returned content, (persist_partial degraded (partial_records t input content messages) s, m))
  end_turn (unexpected_model_behavior error) (s, m) = (
    raised unexpected_behavior,
    (persist_failed failed (some ("[Tool call failed: " & error & "]")) s, m),
  )
  end_turn (model_http_error status_code) (s, m) =
      (raised http_error, (persist_failed failed (some ("[API error " & status_code & "]")) s, m))
  end_turn other_exception w = (raised other_error, w)
