-- ===== src/Orchestrator/Compaction.antt =====
-- Compaction of a session: _should_compact_session, _compact_session and _ordered_recent_turn_ids
-- of src/assistant/core/orchestrator/service.py, over src/assistant/core/orchestrator/token_usage.py.
pub mod Compacted
pub mod Layout
pub mod Pass
use Prim.Native.String.{◌++◌ as ◌&◌}
use private_claw.Prelude.{
  ℕ, ◌+◌, ◌-◌, String, Option, none, some, Bool, true, false, List, [], ◌∷◌, ◌++◌, filter, length,
  drop, contains, ltb, leb, not, ◌&&◌, ◌==◌, string_eq, if◌then◌else◌,
}
use private_claw.Prelude.Texts.{starts_with}
use private_claw.Store.Records.{
  SessionRecord, SessionRecordType, assistant_message, compaction_summary, Json, text, get,
}
use private_claw.Store.Session.{sorted}
use private_claw.Store.Interface.{SessionStore}
use private_claw.Store.Replay.{is_system, is_summary}

-- CompactionConfig; a negative number acts as 0
pub record CompactionConfig : Type 0 where
  pub enabled : Bool
  pub token_threshold : ℕ
  pub min_turns_before_compact : ℕ
  pub keep_recent_turns : ℕ
  pub max_compactions : ℕ

abbrev is_assistant : SessionRecordType → Bool
is_assistant assistant_message = true
is_assistant _ = false

-- The loop of `calculate_session_total_tokens`, with `last_sequence`, none for -1, and
-- `last_input_tokens`. `input_tokens` reads the number from the payload's usage, if it is a dict
-- that has one.
module _ (input_tokens : Json → Option ℕ) where
  abbrev newer : Option ℕ → ℕ → Bool
  newer none sequence = true
  newer (some last) sequence = ltb last sequence

  abbrev tokens_of : SessionRecord → Option ℕ
  tokens_of r = if is_assistant r.record_type then input_tokens (get "usage" r.payload) else none

  abbrev step : Option ℕ × ℕ → ℕ → Option ℕ → Option ℕ × ℕ
  step (last, tokens) sequence none = (last, tokens)
  step (last, tokens) sequence (some n) =
      if newer last sequence then (some sequence, n) else (last, tokens)

  unfoldable pub tokens_from : Option ℕ × ℕ → List SessionRecord → ℕ
  tokens_from (last, tokens) [] = tokens
  tokens_from so_far (r ∷ rs) = tokens_from (step so_far r.sequence (tokens_of r)) rs

  unfoldable pub calculate_session_total_tokens : List SessionRecord → ℕ
  unfolding tokens_from
  calculate_session_total_tokens = tokens_from (none, 0)

-- a turn identifier that counts: not empty, and not that of a summary
unfoldable pub is_turn_id : String → Bool
is_turn_id turn_id = not (turn_id == "") && not (starts_with "compaction-" turn_id)

-- the turn identifiers that count, in the order in which they first appear
unfoldable pub turn_ids_after : List String → List SessionRecord → List String
unfolding is_turn_id
turn_ids_after seen [] = []
turn_ids_after seen (r ∷ rs) = elim (is_turn_id r.turn_id && not (contains seen r.turn_id)) [
  | true ↦ r.turn_id ∷ turn_ids_after (r.turn_id ∷ seen) rs
  | false ↦ turn_ids_after seen rs
]

unfoldable pub ordered_recent_turn_ids : List SessionRecord → ℕ → List String
unfolding turn_ids_after
ordered_recent_turn_ids chat_records keep_recent_turns =
    let ordered = turn_ids_after [] (sorted chat_records) in
    drop (length ordered - keep_recent_turns) ordered

abbrev pub is_chat : SessionRecord → Bool
is_chat r = not (is_summary r.record_type) && not (is_system r.record_type)

abbrev pub summaries_of : List SessionRecord → List SessionRecord
summaries_of = filter (λ r. is_summary r.record_type)

abbrev pub system_of : List SessionRecord → List SessionRecord
system_of = filter (λ r. is_system r.record_type)

abbrev pub chat_of : List SessionRecord → List SessionRecord
chat_of = filter is_chat

module _ (config : CompactionConfig) where
  abbrev pub kept_turn_ids : List SessionRecord → List String
  kept_turn_ids records = ordered_recent_turn_ids (chat_of records) config.keep_recent_turns

  abbrev pub kept_of : List SessionRecord → List SessionRecord
  kept_of records = filter (λ r. contains (kept_turn_ids records) r.turn_id) (chat_of records)

  abbrev pub summarized_of : List SessionRecord → List SessionRecord
  summarized_of records =
      filter (λ r. not (contains (kept_turn_ids records) r.turn_id)) (chat_of records)

-- the identifiers, the clock's reading in ISO format and the summary that go into a new record
pub record NewSummary : Type 0 where
  pub event_id : String
  pub now : ℕ
  pub iso_now : String
  pub message_id : String

module _ (digits : ℕ → String) where
  unfoldable pub summary_record : String → NewSummary → ℕ → ℕ → String → SessionRecord
  summary_record session_id new sequence compaction_pass summary = record {
    session_id = session_id;
    sequence = sequence;
    event_id = new.event_id;
    turn_id = "compaction-" & new.iso_now;
    timestamp = new.now;
    record_type = compaction_summary;
    payload =
        ("message_id", text new.message_id)
        ∷ (
          "content",
          text (
              "[System Context Summary]\n[Session Compacted - Pass "
              & digits compaction_pass
              & "]\n\n"
              & summary),
        )
        ∷ ("scope", text "session")
        ∷ [];
  }

  module _ (config : CompactionConfig) where
    unfoldable pub restored : String → NewSummary → List SessionRecord → String → List SessionRecord
    unfolding summary_record
    restored session_id new records summary =
        let system = system_of records in
        let previous = summaries_of records in
        system
        ++ previous
        ++ summary_record session_id new (length system + length previous) (length previous + 1)
            summary
          ∷ []
        ++ kept_of config records

    module _ {S : Type 0} (store : SessionStore S) where
      -- the end of `_compact_session`, after `summarize`
      unfoldable pub after_summary :
          String → NewSummary → List SessionRecord → Option String → S → Bool × S
      unfolding restored
      after_summary session_id new records none s = (false, s)
      after_summary session_id new records (some summary) s =
          (true, store.replace_session session_id (restored session_id new records summary) s)

      -- `summarize` is the summary that the service makes of the records, none where it raises.
      compact_older :
          (List SessionRecord → Option String)
          → String
          → NewSummary
          → List SessionRecord
          → List SessionRecord
          → S
          → Bool × S
      unfolding after_summary
      compact_older summarize session_id new records [] s = (false, s)
      compact_older summarize session_id new records (r ∷ rs) s =
          after_summary session_id new records (summarize (r ∷ rs)) s

      unfoldable pub compact_session :
          (List SessionRecord → Option String)
          → Bool
          → String
          → NewSummary
          → List SessionRecord
          → S
          → Bool × S
      unfolding compact_older
      compact_session summarize enforce_limit session_id new records s =
          if enforce_limit && leb config.max_compactions (length (summaries_of records))
          then (false, s)
          else compact_older summarize session_id new records (summarized_of config records) s

-- `_should_compact_session`
unfoldable pub should_compact_session :
    (Json → Option ℕ) → CompactionConfig → List SessionRecord → Bool
unfolding calculate_session_total_tokens turn_ids_after
should_compact_session input_tokens config records =
    config.enabled
    && leb config.token_threshold (calculate_session_total_tokens input_tokens records)
    && leb (config.min_turns_before_compact + config.keep_recent_turns)
        (length (turn_ids_after [] records))
