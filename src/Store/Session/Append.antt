-- ===== src/Store/Session/Append.antt =====
-- What `append` of src/assistant/store/filesystem/session.py does to the file of a session.
use Prim.Native.Char.{Char}
use private_claw.Prelude.{
  ℕ, suc, String, ◌≡◌, refl, Bool, true, false, List, [], ◌∷◌, contains, All, arith, ◌==◌,
  if◌then◌else◌, string_eq, ap, append-nil, ◌∙◌, Bool-cases, inl, inr,
}
use private_claw.Prelude.Dict.{lookup-insert}
use private_claw.Store.Records.{SessionRecord}
use private_claw.Store.Session.{
  Sessions, torn, unended, Lines, valid_records, file_append_lines, next_after, event_ids,
  new_records, session_path, lines_of, append_lines, read_all_records, append, append_some,
  same_session,
}
use private_claw.Store.Session.Log.{
  IsLog, HasFreshIds-append, new_records-HasFreshIds, new_records-IsNumbered,
  IsNumbered-IsAscending, IsAscending-append, sorted_of_IsAscending, valid_records-append,
  IsWhole-append,
}

-- the identifiers are all seen, so nothing is new
pub new_records-nil :
    (seen : List String) (n : ℕ) (rs : List SessionRecord)
    → All (λ r. contains seen r.event_id ≡ true) rs
    → new_records seen n rs ≡ []
unfolding new_records
new_records-nil seen n [] h = refl
new_records-nil seen n (r ∷ rs) h = ground (arith, new_records-nil seen n rs h.1)

pub new_records_known :
    (seen : List String) (n : ℕ) (r : SessionRecord) (rs : List SessionRecord)
    → contains seen r.event_id ≡ true
    → new_records seen n (r ∷ rs) ≡ new_records seen n rs
unfolding new_records
new_records_known seen n r rs h = ground arith

pub new_records_unknown :
    (seen : List String) (n : ℕ) (r : SessionRecord) (rs : List SessionRecord)
    → contains seen r.event_id ≡ false
    → new_records seen n (r ∷ rs)
      ≡ record r { sequence = n } ∷ new_records (r.event_id ∷ seen) (suc n) rs
unfolding new_records
new_records_unknown seen n r rs h = ground arith

-- Whatever holds the seen identifiers and the new ones holds every identifier of the batch.
pub new_records_cover :
    (seen t : List String) (n : ℕ) (rs : List SessionRecord)
    → ((a : String) → contains seen a ≡ true → contains t a ≡ true)
    → ((a : String) → contains (event_ids (new_records seen n rs)) a ≡ true → contains t a ≡ true)
    → All (λ r. contains t r.event_id ≡ true) rs
new_records_cover seen t n [] old new = tt
new_records_cover seen t n (r ∷ rs) old new = elim (Bool-cases (contains seen r.event_id)) [
  | inl known ↦ (
    old r.event_id known,
    new_records_cover seen t n rs old (λ a h.
        new a (ap (λ l. contains (event_ids l) a) (new_records_known seen n r rs known) ∙ h)),
  )
  | inr fresh ↦
      let e = new_records_unknown seen n r rs fresh in
      let here : contains t r.event_id ≡ true =
        new r.event_id (ap (λ l. contains (event_ids l) r.event_id) e ∙ ground arith) in
      (
        here,
        new_records_cover (r.event_id ∷ seen) t (suc n) rs (λ a h. ground (arith, old a))
            (λ a h. new a (ap (λ l. contains (event_ids l) a) e ∙ ground arith)),
      )
]

-- Adding the records of a batch that are new keeps the invariant.
pub file_append-IsLog :
    (lines : Lines) (rs : List SessionRecord)
    → IsLog lines
    → IsLog (
        file_append_lines lines
          (new_records (event_ids (valid_records lines)) (next_after (valid_records lines)) rs))
file_append-IsLog lines rs h =
    let seen = event_ids (valid_records lines) in
    let n = next_after (valid_records lines) in
    let new = new_records seen n rs in
    record {
      whole = IsWhole-append lines new h.whole;
      ascending = rw (valid_records-append lines new h.whole) (
          IsAscending-append (valid_records lines) new h.ascending
            (IsNumbered-IsAscending n new (new_records-IsNumbered seen n rs)));
      fresh = rw (valid_records-append lines new h.whole) (
          HasFreshIds-append [] (valid_records lines) new h.fresh
            (rw (append-nil seen) (new_records-HasFreshIds seen n rs)));
    }

module _ (is_alnum : Char → Bool) where
  pub lines-append :
      (j k : String) (rs : List SessionRecord) (s : Sessions)
      → lines_of is_alnum j (append_lines is_alnum k rs s) ≡ (
          if session_path is_alnum k == session_path is_alnum j
          then file_append_lines (lines_of is_alnum k s) rs
          else lines_of is_alnum j s)
  unfolding lines_of append_lines
  lines-append j k rs s = ground (
    arith,
    lookup-insert (session_path is_alnum j) (session_path is_alnum k)
        (file_append_lines (lines_of is_alnum k s) rs) s,
  )

  pub read_of_IsLog :
      (k : String) (s : Sessions)
      → IsLog (lines_of is_alnum k s)
      → read_all_records is_alnum k s ≡ valid_records (lines_of is_alnum k s)
  unfolding read_all_records
  read_of_IsLog k s h = sorted_of_IsAscending 0 _ h.ascending

  -- Sessions of one path have one file.
  pub lines_same_path :
      (j k : String) (s : Sessions)
      → session_path is_alnum j ≡ session_path is_alnum k
      → lines_of is_alnum j s ≡ lines_of is_alnum k s
  unfolding lines_of
  lines_same_path j k s e = rw (e, lines_of)

  file_append-nil : (lines : Lines) → file_append_lines lines [] ≡ lines
  unfolding file_append_lines
  file_append-nil [] = refl
  file_append-nil (torn ∷ []) = refl
  file_append-nil (torn ∷ l ∷ lines) = ap (◌∷◌ torn) (file_append-nil (l ∷ lines))
  file_append-nil (unended r ∷ []) = refl
  file_append-nil (unended r ∷ l ∷ lines) = ap (◌∷◌ (unended r)) (file_append-nil (l ∷ lines))
  file_append-nil (line ∷ lines) = ap (◌∷◌ line) (file_append-nil lines)

  lines-append_some :
      (j k : String) (rs : List SessionRecord) (s : Sessions)
      → lines_of is_alnum j (append_some is_alnum k rs s) ≡ (
          if session_path is_alnum k == session_path is_alnum j
          then file_append_lines (lines_of is_alnum k s) rs
          else lines_of is_alnum j s)
  unfolding append_some
  lines-append_some j k [] s =
      ground (arith, file_append-nil (lines_of is_alnum k s), lines_same_path j k s)
  lines-append_some j k (r ∷ rs) s = lines-append j k (r ∷ rs) s

  -- the records of a batch that `append` writes
  abbrev pub written : SessionRecord → List SessionRecord → Sessions → List SessionRecord
  written r rs s =
      let existing = read_all_records is_alnum r.session_id s in
      new_records (event_ids existing) (next_after existing) (r ∷ rs)

  pub lines-append_batch :
      (r : SessionRecord) (rs : List SessionRecord) (s : Sessions) (j : String)
      → same_session r.session_id rs ≡ true
      → lines_of is_alnum j (append is_alnum (r ∷ rs) s).1 ≡ (
          if session_path is_alnum r.session_id == session_path is_alnum j
          then file_append_lines (lines_of is_alnum r.session_id s) (written r rs s)
          else lines_of is_alnum j s)
  unfolding append
  lines-append_batch r rs s j h =
      ground (arith, lines-append_some j r.session_id (written r rs s) s)
