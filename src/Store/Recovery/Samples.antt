-- ===== src/Store/Recovery/Samples.antt =====
-- Runs of the recovery scan on small inputs.
use Prim.Native.Char.{Char}
use private_claw.Prelude.{
  ℕ, String, ◌≡◌, ◌≢◌, ◌↔◌, refl, Bool, true, List, [], ◌∷◌, All, map, string_discrete, ℕ_discrete,
}
use private_claw.Prelude.Dict.{lookup, insert}
use private_claw.Store.Records.{
  SessionRecord, SessionRecordType, Payload, text, get, user_message, assistant_tool_call,
  turn_terminal,
}
use private_claw.Store.Task.Cleanup.{IsOverdue}
use private_claw.Store.Session.{
  torn, holds, Sessions, valid_records, file_append_lines, sorted, insert_sorted, next_after,
  same_session, safe_id, session_path, lines_of, append_lines, read_all_records, append_raw,
  read_session,
}
use private_claw.Store.Task.{TaskStatus, list_by_status}
use private_claw.Store.Recovery.{
  degraded, recovered, healthy, incomplete_turns, orphan_ids, distinct, text_le, insert_text,
  sorted_texts, tool_calls, result_ids, terminals, create_synthetic_terminals, results,
  create_orphan_tool_results,
}
use private_claw.Store.Recovery.Scan.{
  nothing, scan_session, scan_records, repair_turns, repair_calls, Stores, Clocks,
  run_recovery_scan,
}
use private_claw.Store.Recovery.Settled.{IsSettled, scan_session_lem}
use private_claw.Store.Recovery.Torn.{scan_torn_session}
use private_claw.Store.Recovery.Marker.{run_recovery_scan_lem}

abbrev is_alnum : Char → Bool
is_alnum _ = true

abbrev stamp : ℕ → String
stamp _ = "1.0"

abbrev said : ℕ → String → String → SessionRecordType → Payload → SessionRecord
said sequence event_id turn_id kind payload = record {
  session_id = "s";
  sequence = sequence;
  event_id = event_id;
  turn_id = turn_id;
  timestamp = 5;
  record_type = kind;
  payload = payload;
}

abbrev broken_off : List SessionRecord
broken_off =
    said 0 "e0" "t1" user_message []
    ∷ said 1 "e1" "t1" turn_terminal []
    ∷ said 2 "e2" "t2" user_message []
    ∷ said 3 "e3" "t2" assistant_tool_call (("tool_call_id", text "c1") ∷ [])
    ∷ []

abbrev on_file : Sessions
on_file = ("s.jsonl", map holds broken_off) ∷ []

program : Unit {0}
unfolding scan_session scan_records repair_turns repair_calls incomplete_turns orphan_ids distinct
    text_le insert_text sorted_texts tool_calls result_ids terminals create_synthetic_terminals
    results create_orphan_tool_results append_raw read_all_records append_lines lines_of
    session_path safe_id same_session next_after sorted insert_sorted file_append_lines
    valid_records lookup insert get string_discrete ℕ_discrete
program = tt

one_turn_was_interrupted : incomplete_turns broken_off ≡ "t2" ∷ []
unfolding program
one_turn_was_interrupted = refl

one_call_was_unanswered : orphan_ids broken_off ≡ "c1" ∷ []
unfolding program
one_call_was_unanswered = refl

two_repairs : (scan_session stamp is_alnum "s" 10 11 on_file).0.repaired ≡ 2
unfolding program
two_repairs = refl

scan_session_lem_example :
    let s' = (scan_session stamp is_alnum "s" 10 11 on_file).1 in
    IsSettled stamp is_alnum "s" s'
    × ((now' later' : ℕ) → scan_session stamp is_alnum "s" now' later' s' ≡ (nothing, s'))
unfolding program
scan_session_lem_example = scan_session_lem stamp is_alnum "s" 10 11 on_file tt

abbrev torn_file : Sessions
torn_file = ("s.jsonl", holds (said 0 "e0" "t1" user_message []) ∷ torn ∷ []) ∷ []

scan_torn_session_example :
    let (tally, s') = scan_session stamp is_alnum "s" 10 11 torn_file in
    (tally.issues ≡ 1)
    × (tally.repaired ≡ 1)
    × (read_session is_alnum "s" s' ≡ read_session is_alnum "s" torn_file)
    × (incomplete_turns (read_session is_alnum "s" s') ≡ "t1" ∷ [])
unfolding program
scan_torn_session_example =
    scan_torn_session stamp is_alnum "s" 10 11 (holds (said 0 "e0" "t1" user_message []) ∷ [])
      torn_file "t1" tt refl refl refl

abbrev clocks : Clocks
clocks = record {
  terminals_at = λ _. 10;
  results_at = λ _. 11;
  tasks_at = 12;
  ledger_at = λ _. 13;
  marker_at = 14;
}

abbrev stores : Stores
stores = record { sessions = on_file; tasks = []; idempotency = [] }

run_recovery_scan_lem_example :
    let (marker, after) = run_recovery_scan stamp is_alnum clocks stores in
    (marker.issues_found ≡ marker.issues_repaired)
    × (marker.status ≢ degraded)
    × ((marker.status ≡ healthy) ↔ (marker.issues_found ≡ 0))
    × ((marker.status ≡ recovered) ↔ (marker.issues_found ≢ 0))
    × ((status : TaskStatus) → All (λ t. IsOverdue 12 t → ⊥) (list_by_status status after.tasks))
run_recovery_scan_lem_example = run_recovery_scan_lem stamp is_alnum clocks stores
