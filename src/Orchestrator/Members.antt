-- ===== src/Orchestrator/Members.antt =====
-- The records that a turn writes before its terminal record, and that they belong to it.
use Prim.Native.String.{◌++◌ as ◌&◌}
use private_claw.Prelude.{
  ℕ, suc, String, ◌≡◌, refl, Option, none, some, List, [], ◌∷◌, ◌++◌, All, All-append, All-map, any,
  ap, Bool-cases, inl, inr, ℕ_discrete,
}
use private_claw.Prelude.Texts.{append-clash, append_longer, clash}
use private_claw.Store.Records.{SessionRecord}
use private_claw.Agent.Messages.{ModelMessage, Texts}
use private_claw.Agent.SessionRecordBuilder.{new_messages_to_session_records}
use private_claw.Agent.SessionRecordBuilder.Turn.{new_messages-IsOfTurn}
use private_claw.Orchestrator.Persistence.{
  TurnIds, TurnTerminalStatus, MemoryOutcome, session_record, user_record, assistant_record,
  terminal_record, outcome_record, outcome_records, summary_records, capability_audit, initial_rest,
}
use private_claw.Orchestrator.Batch.{BelongsTo}
use private_claw.Orchestrator.Turn.{
  TurnInput, turn_info, partial_records, reply_records, or_fallback, is_assistant_message,
}

module _ (ids : TurnIds) where
  pub user_record-BelongsTo :
      (n : ℕ) (said attachments : String) (user_id : Option String)
      → BelongsTo ids (user_record ids n said attachments user_id)
  unfolding user_record session_record
  user_record-BelongsTo n said attachments user_id = record {
    of_session = refl;
    of_turn = refl;
    other_event = append_longer "terminal-" ids.turn_id (λ e. cc e);
    not_terminal = refl;
  }

  pub assistant_record-BelongsTo :
      (n : ℕ) (content model_id : String) → BelongsTo ids (assistant_record ids n content model_id)
  unfolding assistant_record session_record clash ℕ_discrete
  assistant_record-BelongsTo n content model_id = record {
    of_session = refl;
    of_turn = refl;
    other_event = append-clash "msg-" "terminal-" (ids.turn_id & "-assistant") ids.turn_id refl;
    not_terminal = refl;
  }

  outcome_record-BelongsTo :
      (n : ℕ) (outcome : MemoryOutcome) → BelongsTo ids (outcome_record ids n outcome)
  unfolding outcome_record session_record clash ℕ_discrete
  outcome_record-BelongsTo n (tool_call_id, result, error) = record {
    of_session = refl;
    of_turn = refl;
    other_event = append-clash "tool-result-final-" "terminal-" tool_call_id ids.turn_id refl;
    not_terminal = refl;
  }

  -- the outcomes' records, and then the terminal record
  pub record Last (status : TurnTerminalStatus) (rs : List SessionRecord) : Type 0 where
    pub before : List SessionRecord
    pub sequence : ℕ
    pub of_turn : All (BelongsTo ids) before
    pub splits : rs ≡ before ++ terminal_record ids sequence status ∷ []

  pub outcome_records-Last :
      (n : ℕ) (outcomes : List MemoryOutcome) (status : TurnTerminalStatus)
      → Last status (outcome_records ids n outcomes status)
  unfolding outcome_records
  outcome_records-Last n [] status = record {
    before = [];
    sequence = n;
    of_turn = tt;
    splits = refl;
  }
  outcome_records-Last n (outcome ∷ outcomes) status =
      let rest = outcome_records-Last (suc n) outcomes status in
      record {
        before = outcome_record ids n outcome ∷ rest.before;
        sequence = rest.sequence;
        of_turn = (outcome_record-BelongsTo n outcome, rest.of_turn);
        splits = ap (◌∷◌ (outcome_record ids n outcome)) rest.splits;
      }

  summary_records-BelongsTo :
      (audit : Option String) → All (BelongsTo ids) (summary_records ids audit)
  unfolding summary_records session_record clash ℕ_discrete
  summary_records-BelongsTo none = tt
  summary_records-BelongsTo (some audit) = (
    record {
      of_session = refl;
      of_turn = refl;
      other_event = append-clash "turn-summary-" "terminal-" ids.turn_id ids.turn_id refl;
      not_terminal = refl;
    },
    tt,
  )

  pub initial_rest-BelongsTo :
      (digits : ℕ → String) (records : List SessionRecord) (n : ℕ) (trace : Option String)
      → All (BelongsTo ids) records
      → All (BelongsTo ids) (initial_rest ids digits records n trace)
  unfolding initial_rest
  initial_rest-BelongsTo digits records n trace h =
      All-append (BelongsTo ids) records _ h
        (summary_records-BelongsTo (capability_audit digits n trace))

module _ (t : Texts) (input : TurnInput) where
  new_messages-BelongsTo :
      (usage user_id : Option String) (messages : List ModelMessage)
      → All
          (BelongsTo input.ids)
          (new_messages_to_session_records t (turn_info input usage user_id) messages)
  unfolding turn_info
  new_messages-BelongsTo usage user_id messages =
      All-map _ (BelongsTo input.ids) _
        (λ r b. record {
          of_session = b.of_session;
          of_turn = b.of_turn;
          other_event = b.other_event input.ids.turn_id;
          not_terminal = b.not_terminal;
        })
        (new_messages-IsOfTurn t (turn_info input usage user_id) (input.ids.turn_id & "-assistant")
          refl messages)

  pub partial_records-BelongsTo :
      (content : String) (messages : List ModelMessage)
      → All (BelongsTo input.ids) (partial_records t input content messages)
  unfolding partial_records
  partial_records-BelongsTo content messages =
      let records =
        new_messages_to_session_records t (turn_info input none input.user_id) messages in
      let h = new_messages-BelongsTo none input.user_id messages in
      elim (Bool-cases (any (λ r. is_assistant_message r.record_type) records)) [
        | inl e ↦ rw (All, e) h
        | inr e ↦
            rw (All, e)
              (All-append (BelongsTo input.ids) records _ h
                (assistant_record-BelongsTo input.ids 0 content input.model_id, tt))
      ]

  or_fallback-BelongsTo :
      (response_text : String) (usage : Option String) (rs : List SessionRecord)
      → All (BelongsTo input.ids) rs
      → All (BelongsTo input.ids) (or_fallback input response_text usage rs)
  unfolding or_fallback session_record clash ℕ_discrete
  or_fallback-BelongsTo response_text usage [] h = (
    record {
      of_session = refl;
      of_turn = refl;
      other_event =
          append-clash "msg-" "terminal-" (input.ids.turn_id & "-assistant") input.ids.turn_id refl;
      not_terminal = refl;
    },
    tt,
  )
  or_fallback-BelongsTo response_text usage (r ∷ rs) h = h

  pub reply_records-BelongsTo :
      (response_text : String) (usage : Option String) (messages : List ModelMessage)
      → All (BelongsTo input.ids) (reply_records t input response_text usage messages)
  unfolding reply_records
  reply_records-BelongsTo response_text usage messages =
      or_fallback-BelongsTo response_text usage _
        (new_messages-BelongsTo usage input.user_id messages)
