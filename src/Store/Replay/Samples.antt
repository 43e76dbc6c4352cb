-- ===== src/Store/Replay/Samples.antt =====
-- A replay of a small history.
use private_claw.Prelude.{
  take, ◌-◌, filter, ℕ, ◌≤◌, String, ◌≡◌, refl, true, List, [], ◌∷◌, ◌++◌, All, length, arith,
  string_discrete, ℕ_discrete,
}
use private_claw.Prelude.Dict.{lookup, insert}
use private_claw.Store.Records.{
  SessionRecord, SessionRecordType, user_message, assistant_tool_call, tool_result, system_message,
  turn_terminal, compaction_summary, Payload, text, get, Json-discrete,
}
use mathlib.Core.List.{Permᴰ}
use private_claw.Store.Replay.Order.{build_replay-perm}
use private_claw.Store.Session.{sorted}
use private_claw.Store.Replay.{
  is_summary, build_replay, preamble, turn_slots, filter_turn_records, extend, is_model_record,
  group_turns, find_latest, collect_compaction_summaries, with_system, with_summaries, total,
  drop_oldest, collect_complete_turns, ids_of, is_matched, is_session_system,
}
use private_claw.Store.Replay.Budget.{
  newest_system, IsLongestFit, length-build_replay-le, build_replay_lem,
}
use private_claw.Store.Replay.Pairs.{IsPaired, filter_turn_records_lem}
use private_claw.Store.Replay.Turns.{IsSettled, turn_slots-IsSettled}

abbrev entry : ℕ → String → SessionRecordType → Payload → SessionRecord
entry sequence turn_id record_type payload = record {
  session_id = "s";
  sequence = sequence;
  event_id = "e";
  turn_id = turn_id;
  timestamp = 0;
  record_type = record_type;
  payload = payload;
}

abbrev call : String → Payload
call id = ("tool_call_id", text id) ∷ []

-- turn `b` has an open call, and turn `c` has not ended
abbrev history : List SessionRecord
history =
    entry 9 "c" user_message []
    ∷ entry 0 "x" system_message (("scope", text "session") ∷ [])
    ∷ entry 1 "a" user_message []
    ∷ entry 2 "a" turn_terminal []
    ∷ entry 3 "b" user_message []
    ∷ entry 4 "b" assistant_tool_call (call "1")
    ∷ entry 5 "b" tool_result (call "1")
    ∷ entry 6 "b" assistant_tool_call (call "2")
    ∷ entry 7 "b" turn_terminal []
    ∷ entry 8 "z" compaction_summary []
    ∷ []

program : Unit {0}
unfolding build_replay preamble turn_slots filter_turn_records extend is_session_system group_turns
    find_latest collect_compaction_summaries with_system with_summaries total drop_oldest
    collect_complete_turns ids_of is_matched sorted get lookup insert string_discrete ℕ_discrete
    Json-discrete
program = tt

-- The budget of 5 has no room for turn `a`.
build_replay-history :
    build_replay history 5
    ≡ entry 0 "x" system_message (("scope", text "session") ∷ [])
      ∷ entry 8 "z" compaction_summary []
      ∷ entry 3 "b" user_message []
      ∷ entry 4 "b" assistant_tool_call (call "1")
      ∷ entry 5 "b" tool_result (call "1")
      ∷ []
unfolding program
build_replay-history = refl

length-build_replay-le_example : length (build_replay history 5) ≤ 5
length-build_replay-le_example = length-build_replay-le history 5

build_replay_lem_example :
    let ordered = sorted history in
    let before = take 5 (newest_system ordered ++ filter (λ x. is_summary x.record_type) ordered) in
    (kept : List (List SessionRecord)) × (build_replay history 5 ≡ before ++ extend kept)
    × IsLongestFit (5 - length before) (turn_slots ordered) kept
build_replay_lem_example =
    build_replay_lem (entry 9 "c" user_message [])
      (entry 0 "x" system_message (("scope", text "session") ∷ [])
        ∷ entry 1 "a" user_message []
        ∷ entry 2 "a" turn_terminal []
        ∷ entry 3 "b" user_message []
        ∷ entry 4 "b" assistant_tool_call (call "1")
        ∷ entry 5 "b" tool_result (call "1")
        ∷ entry 6 "b" assistant_tool_call (call "2")
        ∷ entry 7 "b" turn_terminal []
        ∷ entry 8 "z" compaction_summary []
        ∷ [])
      5

filter_turn_records_lem_example :
    let slot = filter_turn_records history in
    All (λ r. IsPaired slot r × (is_model_record r ≡ true)) slot
filter_turn_records_lem_example = filter_turn_records_lem history

turn_slots-IsSettled_example : All (All (IsSettled history)) (turn_slots history)
turn_slots-IsSettled_example = turn_slots-IsSettled history

abbrev swapped : List SessionRecord
swapped = entry 0 "a" user_message [] ∷ entry 1 "a" turn_terminal [] ∷ []

build_replay-perm_example :
    build_replay (entry 1 "a" turn_terminal [] ∷ entry 0 "a" user_message [] ∷ []) 5
    ≡ build_replay swapped 5
build_replay-perm_example =
    build_replay-perm 5 (Permᴰ.swap refl refl) (((λ e. omega (arith, e)), tt), (tt, tt))
