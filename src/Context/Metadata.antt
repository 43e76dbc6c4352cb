-- ===== src/Context/Metadata.antt =====
-- Session metadata: src/assistant/core/session/metadata.py, and the files that
-- FilesystemSessionMetadataStore of src/assistant/store/filesystem/metadata.py keeps of it.
use Prim.Native.Char.{Char, code}
use Prim.Native.String.{◌++◌ as ◌&◌}
use private_claw.Prelude.{
  ℕ, suc, ◌+◌, ◌*◌, String, Option, none, some, Bool, true, false, List, [], ◌∷◌, leb, ltb, ◌||◌,
  ◌&&◌, ◌==◌, if◌then◌else◌, string_eq, nat_eq,
}
use private_claw.Prelude.Dict.{Dict, lookup, insert, erase}

pub data SessionStatus : Type 0 where
  active suspended archived : SessionStatus

pub data SessionType : Type 0 where
  regular long_running : SessionType

pub record SessionMetadata : Type 0 where
  pub session_id : String
  pub context_id : String
  pub created_at : ℕ
  pub session_type : SessionType

pub record SessionState : Type 0 where
  pub status : SessionStatus
  pub last_activity_at : ℕ
  pub turn_count : ℕ

-- What `from_dict` makes of an object of a file: KeyError, the ValueError of an unknown status or
-- type or an invalid date, or a value.
pub data Field (A : Type 0) : Type 0 where
  missing invalid : Field A
  present : A → Field A

-- A file: one that cannot be read or parsed, or a document with its version.
pub data MetadataFile : Type 0 where
  unreadable : MetadataFile
  document : ℕ → Field SessionMetadata → Field SessionState → MetadataFile

abbrev pub MetadataDir : Type 0
MetadataDir = Dict String MetadataFile

-- what `load` returns or raises; a ValueError is not among the exceptions that it catches
pub data Loaded : Type 0 where
  absent : Loaded
  found : SessionMetadata → SessionState → Loaded
  load_value_error : Loaded

abbrev is_status : SessionStatus → SessionStatus → Bool
is_status active active = true
is_status suspended suspended = true
is_status archived archived = true
is_status _ _ = false

abbrev load_fields : Field SessionMetadata → Field SessionState → Loaded
load_fields missing _ = absent
load_fields invalid _ = load_value_error
load_fields (present metadata) missing = absent
load_fields (present metadata) invalid = load_value_error
load_fields (present metadata) (present state) = found metadata state

abbrev load_file : Option MetadataFile → Loaded
load_file none = absent
load_file (some unreadable) = absent
load_file (some (document version metadata state)) =
    if ltb 1 version then absent else load_fields metadata state

-- `[a-zA-Z0-9_:\-]`
abbrev is_safe_char : Char → Bool
is_safe_char c =
    (leb b'a' (code c) && leb (code c) b'z')
    || (leb b'A' (code c) && leb (code c) b'Z')
    || (leb b'0' (code c) && leb (code c) b'9')
    || code c == b'_'
    || code c == b':'
    || code c == b'-'

unfoldable pub all_safe : String → Bool
all_safe String.[] = true
all_safe (String.◌∷◌ c s) = is_safe_char c && all_safe s

-- `_SAFE_SESSION_ID_PATTERN.match`, for an identifier without a newline at its end
unfoldable pub is_safe_id : String → Bool
unfolding all_safe
is_safe_id s = if s == "" then false else all_safe s

-- `digest` is the first 32 hexadecimal digits of the SHA-256 of a text.
module _ (digest : String → String) where
  unfoldable pub sanitize_session_id : String → String
  unfolding is_safe_id
  sanitize_session_id session_id =
      if is_safe_id session_id then session_id else "hashed_" & digest session_id

  unfoldable pub get_path : String → String
  unfolding sanitize_session_id
  get_path session_id = sanitize_session_id session_id & ".meta.json"

  unfoldable pub save : SessionMetadata → SessionState → MetadataDir → MetadataDir
  save metadata state d =
      insert (get_path metadata.session_id) (document 1 (present metadata) (present state)) d

  unfoldable pub load : String → MetadataDir → Loaded
  load session_id d = load_file (lookup (get_path session_id) d)

  abbrev update_file :
      String → SessionState → Option MetadataFile → MetadataDir → Bool × MetadataDir
  update_file path state none d = (false, d)
  update_file path state (some unreadable) d = (false, d)
  update_file path state (some (document version metadata _)) d =
      (true, insert path (document version metadata (present state)) d)

  unfoldable pub update_state : String → SessionState → MetadataDir → Bool × MetadataDir
  update_state session_id state d =
      let path = get_path session_id in update_file path state (lookup path d) d

  abbrev delete_file : String → Option MetadataFile → MetadataDir → Bool × MetadataDir
  delete_file path none d = (false, d)
  delete_file path (some _) d = (true, erase path d)

  unfoldable pub delete : String → MetadataDir → Bool × MetadataDir
  delete session_id d = let path = get_path session_id in delete_file path (lookup path d) d

-- `results.sort(key=created_at, reverse=True)`, which keeps the order of equal moments
unfoldable pub insert_newest : SessionMetadata → List SessionMetadata → List SessionMetadata
insert_newest m [] = m ∷ []
insert_newest m (x ∷ xs) =
    if leb x.created_at m.created_at then m ∷ x ∷ xs else x ∷ insert_newest m xs

unfoldable pub sort_newest : List SessionMetadata → List SessionMetadata
unfolding insert_newest
sort_newest [] = []
sort_newest (m ∷ ms) = insert_newest m (sort_newest ms)

-- `glob` meets the files in the order of the directory. A list is none where a ValueError leaves it.
unfoldable pub cons_some : {A : Type 0} → A → Option (List A) → Option (List A)
cons_some a none = none
cons_some a (some l) = some (a ∷ l)

abbrev keep_if :
    Bool → SessionMetadata → Option (List SessionMetadata) → Option (List SessionMetadata)
keep_if true m rest = cons_some m rest
keep_if false m rest = rest

unfoldable pub in_context : String → MetadataDir → Option (List SessionMetadata)
unfolding cons_some
in_context context_id [] = some []
in_context context_id ((_, document _ (present m) _) ∷ d) =
    keep_if (m.context_id == context_id) m (in_context context_id d)
in_context context_id ((_, document _ invalid _) ∷ d) = none
in_context context_id (_ ∷ d) = in_context context_id d

abbrev sorted_result : Option (List SessionMetadata) → Option (List SessionMetadata)
sorted_result none = none
sorted_result (some l) = some (sort_newest l)

unfoldable pub list_by_context : String → MetadataDir → Option (List SessionMetadata)
unfolding in_context sort_newest
list_by_context context_id d = sorted_result (in_context context_id d)

-- `context_id` is none for any context
abbrev matches : SessionStatus → Option String → SessionMetadata → SessionState → Bool
matches status none m state = is_status state.status status
matches status (some context_id) m state =
    is_status state.status status && m.context_id == context_id

unfoldable pub with_status :
    SessionStatus → Option String → MetadataDir → Option (List SessionMetadata)
unfolding cons_some
with_status status context_id [] = some []
with_status status context_id ((_, document _ (present m) (present state)) ∷ d) =
    keep_if (matches status context_id m state) m (with_status status context_id d)
with_status status context_id ((_, document _ invalid _) ∷ d) = none
with_status status context_id ((_, document _ (present m) invalid) ∷ d) = none
with_status status context_id (_ ∷ d) = with_status status context_id d

unfoldable pub list_by_status :
    SessionStatus → Option String → MetadataDir → Option (List SessionMetadata)
unfolding with_status sort_newest
list_by_status status context_id d = sorted_result (with_status status context_id d)

-- whether the state is that of a session archived before `now` less `max_age_days`
unfoldable pub is_stale : ℕ → ℕ → SessionState → Bool
is_stale now max_age_days state =
    is_status state.status archived && ltb (state.last_activity_at + max_age_days * 86400000000) now

abbrev has_metadata : Field SessionMetadata → Bool
has_metadata missing = false
has_metadata _ = true

abbrev kept_file : String → MetadataFile → Bool → Option ℕ × MetadataDir → Option ℕ × MetadataDir
kept_file path file stale (removed, left) =
    if stale then (removed, left) else (removed, (path, file) ∷ left)

abbrev counted : Bool → Option ℕ × MetadataDir → Option ℕ × MetadataDir
counted true (some n, d) = (some (suc n), d)
counted _ r = r

-- `cleanup_archived`: the number that it returns, none where a ValueError leaves it, and the files
-- that are left. An object that is invalid has its keys.
unfoldable pub cleanup_archived : ℕ → ℕ → MetadataDir → Option ℕ × MetadataDir
unfolding is_stale
cleanup_archived now max_age_days [] = (some 0, [])
cleanup_archived now max_age_days ((path, document version metadata (present state)) ∷ d) =
    let stale = is_stale now max_age_days state && has_metadata metadata in
    counted stale (
      kept_file path (document version metadata (present state)) stale
        (cleanup_archived now max_age_days d))
cleanup_archived now max_age_days ((path, document version metadata invalid) ∷ d) =
    (none, (path, document version metadata invalid) ∷ d)
cleanup_archived now max_age_days ((path, file) ∷ d) =
    kept_file path file false (cleanup_archived now max_age_days d)
