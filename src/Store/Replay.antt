-- ===== src/Store/Replay.antt =====
-- build_replay of src/assistant/store/filesystem/replay.py: the history that a model is given.
-- A negative budget acts as 0. An identifier of a tool call is a text, as the payload models have it.
pub mod Budget
pub mod Pairs
pub mod Turns
pub mod Order
mod Samples
use private_claw.Prelude.{
  ℕ, zero, suc, ◌+◌, ◌-◌, String, Option, none, some, Bool, true, false, List, [], ◌∷◌, ◌++◌, map,
  filter, any, length, ltb, if◌then◌else◌, ◌==◌, ◌&&◌, ◌||◌, not, contains, string_eq,
}
use private_claw.Prelude.Dict.{Dict, lookup, insert}
use private_claw.Store.Records.{
  SessionRecord, SessionRecordType, user_message, assistant_message, assistant_tool_call,
  tool_result, system_message, turn_summary, turn_terminal, compaction_summary, Json, text, get,
  truthy, json_eq,
}
use private_claw.Store.Session.{sorted}

-- `_MODEL_TURN_TYPES`
abbrev pub is_model_type : SessionRecordType → Bool
is_model_type user_message = true
is_model_type assistant_message = true
is_model_type assistant_tool_call = true
is_model_type tool_result = true
is_model_type system_message = true
is_model_type _ = false

abbrev pub is_system : SessionRecordType → Bool
is_system system_message = true
is_system _ = false

abbrev pub is_call : SessionRecordType → Bool
is_call assistant_tool_call = true
is_call _ = false

abbrev pub is_result : SessionRecordType → Bool
is_result tool_result = true
is_result _ = false

abbrev pub is_terminal : SessionRecordType → Bool
is_terminal turn_terminal = true
is_terminal _ = false

abbrev pub is_summary : SessionRecordType → Bool
is_summary compaction_summary = true
is_summary _ = false

abbrev pub tool_call_id : SessionRecord → Json
tool_call_id r = get "tool_call_id" r.payload

unfoldable pub is_session_system : SessionRecord → Bool
is_session_system r = is_system r.record_type && get "scope" r.payload == text "session"

-- the loop of `_find_latest_session_system_message`
unfoldable pub find_latest : Option SessionRecord → List SessionRecord → Option SessionRecord
find_latest latest [] = latest
find_latest latest (r ∷ rs) = find_latest (if is_session_system r then some r else latest) rs

unfoldable pub collect_compaction_summaries : List SessionRecord → List SessionRecord
collect_compaction_summaries = filter (λ r. is_summary r.record_type)

abbrev pub Turns : Type 0
Turns = Dict String (List SessionRecord)

-- `turns[turn_id]`, which is there or has just been set to `[]`
unfoldable pub turn_so_far : String → Turns → List SessionRecord
turn_so_far turn_id turns = elim (lookup turn_id turns) [ none ↦ [] | some rs ↦ rs ]

-- The loop of `_collect_complete_turns`. A dict keeps the order of insertion, which is `turn_order`.
unfoldable pub group_turns : Turns → List SessionRecord → Turns
group_turns turns [] = turns
group_turns turns (r ∷ rs) =
    group_turns (insert r.turn_id (turn_so_far r.turn_id turns ++ r ∷ []) turns) rs

abbrev pub is_complete : List SessionRecord → Bool
is_complete = any (λ r. is_terminal r.record_type)

unfoldable pub collect_complete_turns : List SessionRecord → List (List SessionRecord)
unfolding group_turns turn_so_far
collect_complete_turns ordered = filter is_complete (map (λ e. e.1) (group_turns [] ordered))

abbrev pub is_model_record : SessionRecord → Bool
is_model_record r = is_model_type r.record_type && not (is_session_system r)

-- the identifiers, if they are not empty, of the records of a kind
unfoldable pub ids_of : (SessionRecordType → Bool) → List SessionRecord → List Json
ids_of kind rs = map tool_call_id (filter (λ r. kind r.record_type && truthy (tool_call_id r)) rs)

-- `r.payload.get("tool_call_id") in call_ids & result_ids`
unfoldable pub is_matched : List SessionRecord → Json → Bool
is_matched model_records id =
    contains (ids_of is_call model_records) id && contains (ids_of is_result model_records) id

abbrev pub stays : List SessionRecord → SessionRecord → Bool
stays model_records r =
    not (is_call r.record_type || is_result r.record_type)
    || is_matched model_records (tool_call_id r)

unfoldable pub filter_turn_records : List SessionRecord → List SessionRecord
filter_turn_records turn_records =
    let model_records = filter is_model_record turn_records in
    filter (stays model_records) model_records

abbrev pub is_filled : List SessionRecord → Bool
is_filled [] = false
is_filled (_ ∷ _) = true

-- the system message, as far as the budget goes
unfoldable pub with_system : Option SessionRecord → ℕ → List SessionRecord × ℕ
with_system (some r) (suc budget) = (r ∷ [], budget)
with_system _ budget = ([], budget)

-- the loop over the summaries: those that fit, and the budget that is left
unfoldable pub with_summaries : List SessionRecord → ℕ → List SessionRecord × ℕ
with_summaries [] remaining = ([], remaining)
with_summaries (r ∷ rs) zero = with_summaries rs zero
with_summaries (r ∷ rs) (suc remaining) =
    let (taken, left) = with_summaries rs remaining in (r ∷ taken, left)

unfoldable pub total : List (List SessionRecord) → ℕ
total [] = 0
total (slot ∷ slots) = length slot + total slots

-- `while sum(...) > remaining_budget and turn_slots: turn_slots.pop(0)`
unfoldable pub drop_oldest : ℕ → List (List SessionRecord) → List (List SessionRecord)
drop_oldest remaining [] = []
drop_oldest remaining (slot ∷ slots) =
    if ltb remaining (total (slot ∷ slots)) then drop_oldest remaining slots else slot ∷ slots

unfoldable pub extend : List (List SessionRecord) → List SessionRecord
extend [] = []
extend (slot ∷ slots) = slot ++ extend slots

unfoldable pub turn_slots : List SessionRecord → List (List SessionRecord)
turn_slots ordered = filter is_filled (map filter_turn_records (collect_complete_turns ordered))

-- what stands before the turns, and the budget that it leaves them
unfoldable pub preamble : List SessionRecord → ℕ → List SessionRecord × ℕ
preamble ordered budget =
    let (system, after_system) = with_system (find_latest none ordered) budget in
    let (summaries, remaining) =
      with_summaries (collect_compaction_summaries ordered) after_system in
    (system ++ summaries, remaining)

unfoldable pub build_replay : List SessionRecord → ℕ → List SessionRecord
build_replay [] budget = []
build_replay (r ∷ rs) budget =
    let ordered = sorted (r ∷ rs) in
    let (before, remaining) = preamble ordered budget in
    before ++ extend (drop_oldest remaining (turn_slots ordered))
