-- ===== src/Store/Session.antt =====
-- FilesystemSessionStore of src/assistant/store/filesystem/session.py: one append-only file of
-- JSON lines for a session. An operation that writes runs under the asyncio lock of its session, so
-- it is one step on the directory.
pub mod Log
pub mod Append
pub mod Contract
pub mod Crash
pub mod Firsts
pub mod FreshIds
pub mod Implements
mod Samples
use Prim.Native.Char.{Char, code}
use Prim.Native.String.{◌++◌ as ◌&◌}
use private_claw.Prelude.{
  ℕ, suc, ◌+◌, ◌-◌, String, Option, none, some, Bool, true, false, List, [], ◌∷◌, map, leb, length,
  drop, get_last?, contains, ◌||◌, if◌then◌else◌, ◌==◌, string_eq, nat_eq,
}
use private_claw.Prelude.Dict.{Dict, lookup, insert, erase}
use private_claw.Store.Records.{SessionRecord}

-- A line, by what `_deserialize_record` makes of it. A last line can lack its newline, as a crash
-- leaves it: a torn one is a part of a record's text, which is no JSON text, and an unended one the
-- whole text, which is read. There are no blank lines.
pub data Line : Type 0 where
  malformed torn : Line
  holds unended : SessionRecord → Line

abbrev pub Lines : Type 0
Lines = List Line

abbrev pub Sessions : Type 0
Sessions = Dict String Lines

-- a call that may raise ValueError
pub data Outcome : Type 0 where
  done value_error : Outcome

unfoldable pub valid_records : Lines → List SessionRecord
valid_records [] = []
valid_records (holds r ∷ lines) = r ∷ valid_records lines
valid_records (unended r ∷ lines) = r ∷ valid_records lines
valid_records (malformed ∷ lines) = valid_records lines
valid_records (torn ∷ lines) = valid_records lines

-- `file_append_lines` of src/assistant/store/filesystem/atomic.py. The file is opened in append
-- mode, so the first new line goes on where a line without its newline stops, and the two together
-- are no JSON text.
unfoldable pub file_append_lines : Lines → List SessionRecord → Lines
file_append_lines [] rs = map holds rs
file_append_lines (torn ∷ []) (r ∷ rs) = malformed ∷ map holds rs
file_append_lines (unended _ ∷ []) (r ∷ rs) = malformed ∷ map holds rs
file_append_lines (line ∷ lines) rs = line ∷ file_append_lines lines rs

-- `sorted(records, key=lambda r: r.sequence)`, which is stable
unfoldable pub insert_sorted : SessionRecord → List SessionRecord → List SessionRecord
insert_sorted r [] = r ∷ []
insert_sorted r (x ∷ xs) = if leb r.sequence x.sequence then r ∷ x ∷ xs else x ∷ insert_sorted r xs

unfoldable pub sorted : List SessionRecord → List SessionRecord
unfolding insert_sorted
sorted [] = []
sorted (r ∷ rs) = insert_sorted r (sorted rs)

-- `records[-1].sequence + 1 if records else 0`
unfoldable pub next_after : List SessionRecord → ℕ
next_after rs = elim (get_last? rs) [ none ↦ 0 | some r ↦ r.sequence + 1 ]

abbrev pub event_ids : List SessionRecord → List String
event_ids = map (λ r. r.event_id)

-- the loop of `append`: `seen` holds `existing_event_ids`
unfoldable pub new_records : List String → ℕ → List SessionRecord → List SessionRecord
new_records seen next [] = []
new_records seen next (r ∷ rs) = elim (contains seen r.event_id) [
  | true ↦ new_records seen next rs
  | false ↦ record r { sequence = next } ∷ new_records (r.event_id ∷ seen) (suc next) rs
]

-- `len({r.session_id for r in records}) == 1`, for records that are not empty
unfoldable pub same_session : String → List SessionRecord → Bool
same_session session_id [] = true
same_session session_id (r ∷ rs) =
    if r.session_id == session_id then same_session session_id rs else false

-- `is_alnum` is `str.isalnum` of one character.
module _ (is_alnum : Char → Bool) where
  unfoldable pub safe_id : String → String
  safe_id String.[] = String.[]
  safe_id (String.◌∷◌ c s) =
      String.◌∷◌ (if is_alnum c || code c == b'-' || code c == b'_' then c else "_") (safe_id s)

  unfoldable pub session_path : String → String
  session_path session_id = safe_id session_id & ".jsonl"

  -- the lines of a file, none if it is not there
  unfoldable pub lines_of : String → Sessions → Lines
  lines_of session_id s = elim (lookup (session_path session_id) s) [
    | none ↦ []
    | some lines ↦ lines
  ]

  unfoldable pub append_lines : String → List SessionRecord → Sessions → Sessions
  append_lines session_id rs s =
      insert (session_path session_id) (file_append_lines (lines_of session_id s) rs) s

  unfoldable pub read_all_records : String → Sessions → List SessionRecord
  read_all_records session_id s = sorted (valid_records (lines_of session_id s))

  -- the end of `append`, once the new records are known
  append_some : String → List SessionRecord → Sessions → Sessions
  append_some session_id [] s = s
  append_some session_id (r ∷ rs) s = append_lines session_id (r ∷ rs) s

  unfoldable pub append : List SessionRecord → Sessions → Outcome × Sessions
  unfolding append_some
  append [] s = (done, s)
  append (r ∷ rs) s =
      let session_id = r.session_id in
      let existing = read_all_records session_id s in
      if same_session session_id rs
      then (
        done,
        append_some session_id (new_records (event_ids existing) (next_after existing) (r ∷ rs)) s,
      )
      else (value_error, s)

  unfoldable pub append_raw : List SessionRecord → Sessions → Outcome × Sessions
  append_raw [] s = (done, s)
  append_raw (r ∷ rs) s =
      if same_session r.session_id rs
      then (done, append_lines r.session_id (r ∷ rs) s)
      else (value_error, s)

  abbrev pub read_session : String → Sessions → List SessionRecord
  read_session = read_all_records

  -- `records[-max_records:]`; `records[-0:]` is the whole list
  unfoldable pub read_window : String → ℕ → Sessions → List SessionRecord
  read_window session_id max_records s =
      let records = read_session session_id s in
      if leb (length records) max_records
      then records
      else if max_records == 0
      then records
      else drop (length records - max_records) records

  unfoldable pub get_next_sequence : String → Sessions → ℕ
  get_next_sequence session_id s = next_after (read_session session_id s)

  unfoldable pub session_exists : String → Sessions → Bool
  session_exists session_id s = elim (lookup (session_path session_id) s) [
    | none ↦ false
    | some _ ↦ true
  ]

  unfoldable pub clear_session : String → Sessions → Bool × Sessions
  clear_session session_id s = elim (lookup (session_path session_id) s) [
    | none ↦ (false, s)
    | some _ ↦ (true, erase (session_path session_id) s)
  ]

  unfoldable pub replace_session : String → List SessionRecord → Sessions → Sessions
  replace_session session_id rs s = insert (session_path session_id) (map holds rs) s

-- `list_sessions` takes the session of each file's first line, if it can be read.
unfoldable pub list_sessions : Sessions → List String
list_sessions [] = []
list_sessions ((path, holds r ∷ lines) ∷ s) = r.session_id ∷ list_sessions s
list_sessions ((path, unended r ∷ lines) ∷ s) = r.session_id ∷ list_sessions s
list_sessions ((path, _) ∷ s) = list_sessions s
