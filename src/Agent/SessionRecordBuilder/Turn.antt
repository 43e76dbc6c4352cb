-- ===== src/Agent/SessionRecordBuilder/Turn.antt =====
-- Whose records src/assistant/agent/session_record_builder.py makes.
use Prim.Native.String.{◌++◌ as ◌&◌}
use text.Mathlib.TextLemmas.{append_assoc}
use private_claw.Prelude.{
  ℕ, zero, suc, String, ℕ_discrete, if◌then◌else◌, ◌≡◌, ◌≢◌, refl, Bool, true, false, List, [], ◌∷◌,
  ◌++◌, All, All-append, ap, sym, ◌∙◌, Bool-cases, inl, inr, ◌&&◌, ◌==◌, string_eq,
}
use private_claw.Prelude.Texts.{append-clash, clash}
use private_claw.Store.Records.{SessionRecord}
use private_claw.Store.Replay.{is_terminal}
use private_claw.Agent.Messages.{
  Texts, ResponsePart, tool_call_part, RequestPart, tool_return_part, ModelMessage, model_response,
  model_request, TurnInfo,
}
use private_claw.Agent.SessionRecordBuilder.{
  memory_tool_name, turn_record, call_records, message_id_of, text_records, text_parts, next_idx,
  return_records, records_from, new_messages_to_session_records,
}

-- of the turn, not its terminal record, and of another event than any terminal record's
pub record IsOfTurn (info : TurnInfo) (r : SessionRecord) : Type 0 where
  pub of_session : r.session_id ≡ info.session_id
  pub of_turn : r.turn_id ≡ info.turn_id
  pub other_event : (x : String) → r.event_id ≢ "terminal-" & x
  pub not_terminal : is_terminal r.record_type ≡ false

call_records-IsOfTurn :
    (info : TurnInfo) (parts : List ResponsePart) → All (IsOfTurn info) (call_records info parts)
unfolding call_records turn_record clash ℕ_discrete
call_records-IsOfTurn info [] = tt
call_records-IsOfTurn info (tool_call_part tool_call_id tool_name args ∷ parts) = (
  record {
    of_session = refl;
    of_turn = refl;
    other_event = λ x. append-clash "assistant-tool-call-" "terminal-" tool_call_id x refl;
    not_terminal = refl;
  },
  call_records-IsOfTurn info parts,
)
call_records-IsOfTurn info (_ ∷ parts) = call_records-IsOfTurn info parts

module _ (t : Texts) (info : TurnInfo) (y : String)
    (named : info.assistant_msg_id ≡ "msg-" & y) where
  -- every message of the turn is named after "msg-"
  message_id-named : (n : ℕ) → (z : String) × (message_id_of t info.assistant_msg_id n ≡ "msg-" & z)
  unfolding message_id_of
  message_id-named zero = (y, named)
  message_id-named (suc n) =
      let end = "-" & t.digits (suc n) in
      (y & end, ap (λ m. m & end) named ∙ append_assoc "msg-" y end)

  text_records-IsOfTurn :
      (n : ℕ) (ss : List String) → All (IsOfTurn info) (text_records t info n ss)
  unfolding text_records turn_record clash ℕ_discrete
  text_records-IsOfTurn n [] = tt
  text_records-IsOfTurn n (s ∷ ss) =
      let (z, e) = message_id-named n in
      (
        record {
          of_session = refl;
          of_turn = refl;
          other_event = λ x h. append-clash "msg-" "terminal-" z x refl (sym e ∙ h);
          not_terminal = refl;
        },
        tt,
      )

  return_record-IsOfTurn :
      (r : SessionRecord) (rest : List SessionRecord) (tool_name : String) (retried : Bool)
      → IsOfTurn info r
      → All (IsOfTurn info) rest
      → All (IsOfTurn info) (
          if retried
          then rest
          else if info.skip_memory_tool_results && tool_name == memory_tool_name
          then rest
          else r ∷ rest)
  return_record-IsOfTurn r rest tool_name true h hs = hs
  return_record-IsOfTurn r rest tool_name false h hs =
      elim (Bool-cases (info.skip_memory_tool_results && tool_name == memory_tool_name)) [
        | inl e ↦ rw (All, e) hs
        | inr e ↦ rw (All, e) (h, hs)
      ]

  return_records-IsOfTurn :
      (parts : List RequestPart) → All (IsOfTurn info) (return_records t info parts)
  unfolding return_records turn_record clash ℕ_discrete
  return_records-IsOfTurn [] = tt
  return_records-IsOfTurn (tool_return_part tool_call_id tool_name retried content ∷ parts) =
      return_record-IsOfTurn _ (return_records t info parts) tool_name retried
        (record {
          of_session = refl;
          of_turn = refl;
          other_event = λ x. append-clash "tool-result-" "terminal-" tool_call_id x refl;
          not_terminal = refl;
        })
        (return_records-IsOfTurn parts)
  return_records-IsOfTurn (_ ∷ parts) = return_records-IsOfTurn parts

  records_from-IsOfTurn :
      (n : ℕ) (messages : List ModelMessage) → All (IsOfTurn info) (records_from t info n messages)
  unfolding records_from
  records_from-IsOfTurn n [] = tt
  records_from-IsOfTurn n (model_response parts ∷ messages) =
      let texts = text_parts parts in
      All-append (IsOfTurn info) (text_records t info n texts ++ call_records info parts) _
        (All-append (IsOfTurn info) (text_records t info n texts) (call_records info parts)
          (text_records-IsOfTurn n texts) (call_records-IsOfTurn info parts))
        (records_from-IsOfTurn (next_idx t n texts) messages)
  records_from-IsOfTurn n (model_request parts ∷ messages) =
      All-append (IsOfTurn info) (return_records t info parts) _ (return_records-IsOfTurn parts)
        (records_from-IsOfTurn n messages)

  -- Where the assistant's message is named after "msg-", every record that the builder makes is of
  -- the turn and its session, none is a terminal record, and none has the event of one.
  pub new_messages-IsOfTurn :
      (messages : List ModelMessage)
      → All (IsOfTurn info) (new_messages_to_session_records t info messages)
  unfolding new_messages_to_session_records
  new_messages-IsOfTurn = records_from-IsOfTurn 0
