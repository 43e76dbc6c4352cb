-- ===== src/Store/Session/Samples.antt =====
-- Runs of the session store on small inputs.
use Prim.Native.Char.{Char}
use private_claw.Prelude.{
  String, ◌≡◌, ◌≢◌, refl, Bool, true, false, [], ◌∷◌, ◌++◌, arith, string_discrete, ℕ_discrete,
}
use private_claw.Prelude.Dict.{lookup, insert}
use private_claw.Store.Records.{SessionRecord, user_message}
use private_claw.Store.Session.{
  holds, unended, Sessions, done, valid_records, file_append_lines, sorted, next_after, event_ids,
  new_records, same_session, safe_id, session_path, lines_of, append_lines, read_all_records,
  read_session, append, get_next_sequence, read_window,
}
use private_claw.Store.Session.Firsts.{numbered, additions}
use private_claw.Store.Session.Log.{IsNumbered, HasFreshIds}
use private_claw.Store.Session.Contract.{AreLogs, append_lem, append_idempotent, append_isolated}
use private_claw.Store.Session.Crash.{at_newline, append_after_crash}

abbrev ascii : Char → Bool
ascii _ = false

abbrev said : String → SessionRecord
said event_id = record {
  session_id = "tg:1";
  sequence = 0;
  event_id = event_id;
  turn_id = "t";
  timestamp = 5;
  record_type = user_message;
  payload = [];
}

program : Unit {0}
unfolding append get_next_sequence read_window read_all_records append_lines lines_of session_path
    safe_id same_session new_records next_after sorted file_append_lines valid_records lookup insert
    string_discrete ℕ_discrete
program = tt

no_files : AreLogs ascii []
unfolding program
no_files = record { at = λ k. record { whole = tt; ascending = tt; fresh = tt } }

abbrev stored : Sessions
stored = (append ascii (said "a" ∷ said "b" ∷ said "a" ∷ []) []).1

append_dedups :
    read_session ascii "tg:1" stored ≡ said "a" ∷ record (said "b") { sequence = 1 } ∷ []
unfolding program
append_dedups = refl

-- `records[-0:]` is the whole list
read_window_zero : read_window ascii "tg:1" 0 stored ≡ read_session ascii "tg:1" stored
unfolding program
read_window_zero = refl

batch_same : same_session "tg:1" (said "b" ∷ said "a" ∷ []) ≡ true
unfolding program
batch_same = refl

append_lem_example :
    let (outcome, s') = append ascii (said "a" ∷ said "b" ∷ said "a" ∷ []) [] in
    let existing = event_ids (read_session ascii "tg:1" []) in
    let new =
      numbered
        (get_next_sequence ascii "tg:1" [])
        (additions existing (said "a" ∷ said "b" ∷ said "a" ∷ [])) in
    (outcome ≡ done)
    × (read_session ascii "tg:1" s' ≡ read_session ascii "tg:1" [] ++ new)
    × IsNumbered (get_next_sequence ascii "tg:1" []) new
    × HasFreshIds existing new
    × AreLogs ascii s'
append_lem_example = append_lem ascii (said "a") (said "b" ∷ said "a" ∷ []) [] no_files batch_same

append_idempotent_example :
    append ascii (said "a" ∷ said "b" ∷ said "a" ∷ []) stored ≡ (done, stored)
append_idempotent_example =
    append_idempotent ascii (said "a") (said "b" ∷ said "a" ∷ []) [] no_files batch_same

other_path : session_path ascii "tg:1" ≢ session_path ascii "other"
unfolding program
other_path e = cc e

append_isolated_example :
    read_session ascii "other" (append ascii (said "c" ∷ []) stored).1
    ≡ read_session ascii "other" stored
append_isolated_example = append_isolated ascii (said "c") [] stored "other" other_path

append_after_crash_example :
    (valid_records (holds (said "a") ∷ holds (said "b") ∷ unended (said "c") ∷ [])
      ≡ said "a" ∷ said "b" ∷ said "c" ∷ [])
    × (valid_records (
          file_append_lines
            (holds (said "a") ∷ holds (said "b") ∷ unended (said "c") ∷ [])
            (said "d" ∷ said "e" ∷ []))
        ≡ valid_records (holds (said "a") ∷ []) ++ (said "b" ∷ said "e" ∷ []))
unfolding valid_records
append_after_crash_example =
    append_after_crash (holds (said "a") ∷ []) at_newline 1 (said "b" ∷ said "c" ∷ []) (said "d")
      (said "e" ∷ []) tt (omega arith)
