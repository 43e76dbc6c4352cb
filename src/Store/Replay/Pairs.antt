-- ===== src/Store/Replay/Pairs.antt =====
-- Tool calls and results in a replay: src/assistant/store/filesystem/replay.py.
use private_claw.Prelude.{
  ◌≡◌, Bool, true, List, [], ◌∷◌, filter, contains, All, All-map, All-filter, arith, ◌⊎◌,
}
use private_claw.Store.Records.{SessionRecord, SessionRecordType, Json, json_eq}
use private_claw.Store.Replay.{
  is_call, is_result, is_model_record, is_matched, ids_of, tool_call_id, stays, filter_turn_records,
}

-- Filtering keeps an identifier of a kind if it keeps every record that has it.
contains-ids_of-filter :
    (kind : SessionRecordType → Bool) (p : SessionRecord → Bool) (id : Json)
    (rs : List SessionRecord)
    → ((r : SessionRecord) → tool_call_id r ≡ id → p r ≡ true)
    → contains (ids_of kind rs) id ≡ true
    → contains (ids_of kind (filter p rs)) id ≡ true
unfolding ids_of
contains-ids_of-filter kind p id [] keep h = h
contains-ids_of-filter kind p id (r ∷ rs) keep h =
    ground (arith, keep r, contains-ids_of-filter kind p id rs keep)

-- The call and the result of the identifier are both among the records.
abbrev pub IsPaired : List SessionRecord → SessionRecord → Type 0
IsPaired slot r =
    (is_call r.record_type ≡ true) ⊎ (is_result r.record_type ≡ true)
    → (contains (ids_of is_call slot) (tool_call_id r) ≡ true)
      × (contains (ids_of is_result slot) (tool_call_id r) ≡ true)

matched-IsPaired :
    (model : List SessionRecord) (r : SessionRecord)
    → stays model r ≡ true
    → IsPaired (filter (stays model) model) r
unfolding is_matched
matched-IsPaired model r h tool =
    let id = tool_call_id r in
    let matched : is_matched model id ≡ true = ground arith in
    let keep : (x : SessionRecord) → tool_call_id x ≡ id → stays model x ≡ true =
      λ x e. ground arith in
    (
      contains-ids_of-filter is_call (stays model) id model keep (ground arith),
      contains-ids_of-filter is_result (stays model) id model keep (ground arith),
    )

All-true : {A : Type 0} (xs : List A) → All (λ x. Unit {0}) xs
All-true [] = tt
All-true (x ∷ xs) = (tt, All-true xs)

-- In what a turn gives to the model, every tool call has a result of its identifier in the same
-- turn and every result has its call; each record has a type that a model is given; and none is
-- the session's system message.
pub filter_turn_records_lem :
    (turn_records : List SessionRecord)
    → let slot = filter_turn_records turn_records in
      All (λ r. IsPaired slot r × (is_model_record r ≡ true)) slot
unfolding filter_turn_records
filter_turn_records_lem turn_records =
    let model = filter is_model_record turn_records in
    All-map _ _ (filter (stays model) model) (λ r h. (matched-IsPaired model r h.0, h.1.0))
      (All-filter _ (stays model) model
        (All-filter _ is_model_record turn_records (All-true turn_records)))
