-- ===== src/Store/Session/Contract.antt =====
-- What the session store of src/assistant/store/filesystem/session.py promises its callers.
use Prim.Native.Char.{Char}
use private_claw.Prelude.{
  String, ◌≡◌, ◌≢◌, refl, Bool, true, false, List, [], ◌∷◌, ◌++◌, contains, All, contains-append,
  arith, ◌==◌, string_eq, ap, Bool-cases, inl, inr, sym, subst, ◌∙◌,
}
use private_claw.Store.Records.{SessionRecord}
use private_claw.Store.Session.{
  Outcome, sorted, Sessions, valid_records, file_append_lines, next_after, event_ids, session_path,
  lines_of, read_all_records, read_session, append, done, value_error, same_session,
  get_next_sequence,
}
use private_claw.Store.Session.Append.{
  new_records-nil, new_records_cover, file_append-IsLog, read_of_IsLog, written, lines-append_batch,
}
use private_claw.Store.Session.Firsts.{numbered, additions, new_records_lem}
use private_claw.Store.Session.Log.{
  IsLog, IsNumbered, HasFreshIds, new_records-HasFreshIds, new_records-IsNumbered,
  valid_records-append,
}

module _ (is_alnum : Char → Bool) where
  -- Every session's file satisfies the invariant.
  pub record AreLogs (s : Sessions) : Type 0 where
    pub at : (session_id : String) → IsLog (lines_of is_alnum session_id s)

  append-AreLogs :
      (r : SessionRecord) (rs : List SessionRecord) (s : Sessions)
      → AreLogs s
      → same_session r.session_id rs ≡ true
      → AreLogs (append is_alnum (r ∷ rs) s).1
  append-AreLogs r rs s a h = record {
    at = λ j.
        rw (lines-append_batch is_alnum r rs s j h)
          (elim (Bool-cases (session_path is_alnum r.session_id == session_path is_alnum j)) [
            | inl same ↦ rw same (
                rw (read_of_IsLog is_alnum r.session_id s (a.at r.session_id)) (
                  file_append-IsLog (lines_of is_alnum r.session_id s) (r ∷ rs)
                    (a.at r.session_id)))
            | inr other ↦ rw other (a.at j)
          ]);
  }

  read-append :
      (r : SessionRecord) (rs : List SessionRecord) (s : Sessions)
      → AreLogs s
      → same_session r.session_id rs ≡ true
      → read_session is_alnum r.session_id (append is_alnum (r ∷ rs) s).1
        ≡ read_session is_alnum r.session_id s ++ written is_alnum r rs s
  read-append r rs s a h =
      let k = r.session_id in
      let new = written is_alnum r rs s in
      let p = session_path is_alnum k in
      let lines : lines_of is_alnum k (append is_alnum (r ∷ rs) s).1
          ≡ file_append_lines (lines_of is_alnum k s) new =
        lines-append_batch is_alnum r rs s k h ∙ ground arith in
      read_of_IsLog is_alnum k _ ((append-AreLogs r rs s a h).at k)
      ∙ ap valid_records lines
      ∙ valid_records-append (lines_of is_alnum k s) new (a.at k).whole
      ∙ ap (λ l. l ++ new) (sym (read_of_IsLog is_alnum k s (a.at k)))

  -- `append` of a batch for one session, where every file satisfies the invariant: a read gives
  -- what it gave before and then, of the first record of each event of the batch, those whose event
  -- was not there, numbered on from the next sequence number; their events are new and distinct; and
  -- every file satisfies the invariant again: whole lines, ascending sequence numbers, no event
  -- twice.
  pub append_lem :
      (r : SessionRecord) (rs : List SessionRecord) (s : Sessions)
      → AreLogs s
      → same_session r.session_id rs ≡ true
      → let k = r.session_id in
        let (outcome, s') = append is_alnum (r ∷ rs) s in
        let existing = event_ids (read_session is_alnum k s) in
        let new = numbered (get_next_sequence is_alnum k s) (additions existing (r ∷ rs)) in
        (outcome ≡ done)
        × (read_session is_alnum k s' ≡ read_session is_alnum k s ++ new)
        × IsNumbered (get_next_sequence is_alnum k s) new
        × HasFreshIds existing new
        × AreLogs s'
  unfolding append get_next_sequence
  append_lem r rs s a h =
      let existing = read_session is_alnum r.session_id s in
      let e = new_records_lem (event_ids existing) (next_after existing) (r ∷ rs) in
      (
        ground arith,
        read-append r rs s a h ∙ ap (λ l. existing ++ l) e,
        subst (IsNumbered (next_after existing)) e
            (new_records-IsNumbered (event_ids existing) (next_after existing) (r ∷ rs)),
        subst (HasFreshIds (event_ids existing)) e
            (new_records-HasFreshIds (event_ids existing) (next_after existing) (r ∷ rs)),
        append-AreLogs r rs s a h,
      )

  event_ids-append :
      (xs ys : List SessionRecord) → event_ids (xs ++ ys) ≡ event_ids xs ++ event_ids ys
  event_ids-append [] ys = refl
  event_ids-append (x ∷ xs) ys = ap (◌∷◌ x.event_id) (event_ids-append xs ys)

  -- after an append every event of the batch is on file
  batch_on_file :
      (r : SessionRecord) (rs : List SessionRecord) (s : Sessions)
      → AreLogs s
      → same_session r.session_id rs ≡ true
      → All
          (λ x.
            contains
              (event_ids (read_session is_alnum r.session_id (append is_alnum (r ∷ rs) s).1))
              x.event_id
            ≡ true)
          (r ∷ rs)
  batch_on_file r rs s a h =
      let existing = read_session is_alnum r.session_id s in
      let new = written is_alnum r rs s in
      subst (λ l. All (λ x. contains (event_ids l) x.event_id ≡ true) (r ∷ rs))
        (sym (read-append r rs s a h))
        (subst (λ l. All (λ x. contains l x.event_id ≡ true) (r ∷ rs))
          (sym (event_ids-append existing new))
          (new_records_cover (event_ids existing) (event_ids existing ++ event_ids new)
            (next_after existing) (r ∷ rs)
            (λ x e. ground (arith, contains-append (event_ids existing) (event_ids new) x))
            (λ x e. ground (arith, contains-append (event_ids existing) (event_ids new) x))))

  append_nothing_new :
      (r : SessionRecord) (rs : List SessionRecord) (s : Sessions)
      → same_session r.session_id rs ≡ true
      → written is_alnum r rs s ≡ []
      → append is_alnum (r ∷ rs) s ≡ (done, s)
  unfolding append
  append_nothing_new r rs s h e = ground arith

  -- `append` is idempotent: the same batch again changes no file.
  pub append_idempotent :
      (r : SessionRecord) (rs : List SessionRecord) (s : Sessions)
      → AreLogs s
      → same_session r.session_id rs ≡ true
      → append is_alnum (r ∷ rs) (append is_alnum (r ∷ rs) s).1
        ≡ (done, (append is_alnum (r ∷ rs) s).1)
  append_idempotent r rs s a h =
      append_nothing_new r rs (append is_alnum (r ∷ rs) s).1 h
        (new_records-nil _ _ (r ∷ rs) (batch_on_file r rs s a h))

  append_mixed :
      (r : SessionRecord) (rs : List SessionRecord) (s : Sessions)
      → same_session r.session_id rs ≡ false
      → append is_alnum (r ∷ rs) s ≡ (value_error, s)
  unfolding append
  append_mixed r rs s h = ground arith

  -- An append, of a batch that is written or of one that is refused, leaves every session whose
  -- file has another name as it was.
  pub append_isolated :
      (r : SessionRecord) (rs : List SessionRecord) (s : Sessions) (j : String)
      → session_path is_alnum r.session_id ≢ session_path is_alnum j
      → read_session is_alnum j (append is_alnum (r ∷ rs) s).1 ≡ read_session is_alnum j s
  unfolding read_all_records
  append_isolated r rs s j differ = elim (Bool-cases (same_session r.session_id rs)) [
    | inl same ↦
        ap (λ l. sorted (valid_records l))
          (lines-append_batch is_alnum r rs s j same ∙ ground arith)
    | inr mixed ↦
        ap (λ (p : Outcome × Sessions). sorted (valid_records (lines_of is_alnum j p.1)))
          (append_mixed r rs s mixed)
  ]
