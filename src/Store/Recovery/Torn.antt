-- ===== src/Store/Recovery/Torn.antt =====
-- The recovery scan of src/assistant/store/facade.py over a session file with a torn last line, as
-- a crash leaves it.
use Prim.Native.Char.{Char}
use private_claw.Prelude.{
  ℕ, String, ◌≡◌, refl, Bool, true, List, [], ◌∷◌, ◌++◌, arith, string_eq, sym, ap, ◌∙◌, ==_refl,
}
use private_claw.Store.Records.{SessionRecord}
use private_claw.Store.Session.{
  malformed, torn, Lines, Sessions, valid_records, file_append_lines, lines_of, append_raw,
  read_session, read_all_records, same_session, sorted, next_after,
}
use private_claw.Store.Session.Log.{IsWhole}
use private_claw.Store.Session.Crash.{valid_records-++, file_append-++}
use private_claw.Store.Recovery.{
  incomplete_turns, orphan_ids, distinct, create_synthetic_terminals, create_orphan_tool_results,
  terminals, results, sorted_texts, insert_text, terminal_record,
}
use private_claw.Store.Recovery.Repairs.{lines-append_raw}
use private_claw.Store.Recovery.Scan.{scan_session, scan_records, repair_turns, repair_calls}

valid_records_after_torn :
    (pre : Lines) (r : SessionRecord)
    → IsWhole pre
    → valid_records (file_append_lines (pre ++ torn ∷ []) (r ∷ []))
      ≡ valid_records (pre ++ torn ∷ [])
unfolding valid_records file_append_lines
valid_records_after_torn pre r w =
    ap valid_records (file_append-++ pre (torn ∷ []) (r ∷ []) w)
    ∙ valid_records-++ pre (malformed ∷ [])
    ∙ sym (valid_records-++ pre (torn ∷ []))

module _ (stamp : ℕ → String) (is_alnum : Char → Bool) (session_id : String) where
  read_after_torn :
      (pre : Lines) (r : SessionRecord) (s : Sessions)
      → IsWhole pre
      → lines_of is_alnum session_id s ≡ pre ++ torn ∷ []
      → same_session session_id (r ∷ []) ≡ true
      → read_session is_alnum session_id (append_raw is_alnum (r ∷ []) s).1
        ≡ read_session is_alnum session_id s
  unfolding read_all_records
  read_after_torn pre r s w e h =
      ap (λ l. sorted (valid_records l))
        (lines-append_raw is_alnum session_id r [] s h ∙ ap (λ l. file_append_lines l (r ∷ [])) e)
      ∙ ap sorted (valid_records_after_torn pre r w)
      ∙ ap (λ l. sorted (valid_records l)) (sym e)

  no_results :
      (later : ℕ) (rs : List SessionRecord)
      → orphan_ids rs ≡ []
      → create_orphan_tool_results stamp session_id later rs ≡ []
  unfolding create_orphan_tool_results results sorted_texts
  no_results later rs e = rw e refl

  after_torn :
      (now later : ℕ) (pre : Lines) (s : Sessions) (t : String) (rs : List SessionRecord)
      → IsWhole pre
      → lines_of is_alnum session_id s ≡ pre ++ torn ∷ []
      → rs ≡ read_session is_alnum session_id s
      → incomplete_turns rs ≡ t ∷ []
      → orphan_ids rs ≡ []
      → let (tally, s') = scan_records stamp is_alnum session_id now later rs s in
        (tally.issues ≡ 1)
        × (tally.repaired ≡ 1)
        × (read_session is_alnum session_id s' ≡ read_session is_alnum session_id s)
  unfolding scan_records repair_turns repair_calls create_synthetic_terminals terminals sorted_texts
      insert_text incomplete_turns distinct same_session
  after_torn now later pre s t [] w l e i o = absurd (cc i)
  after_torn now later pre s t (r ∷ rs) w l e i o =
      let x = terminal_record stamp session_id now (next_after (r ∷ rs)) t in
      let same = read_after_torn pre x s w l (ground (arith, ==_refl session_id)) in
      let none_left = no_results later _ (ap orphan_ids (same ∙ sym e) ∙ o) in
      rw (i, none_left) (refl, refl, same)

  -- When a crash cut the last line of a session's file in its text, the scan counts an interrupted turn as
  -- repaired, but what a reader gives is as before: the synthetic terminal record goes on where the
  -- torn line stops, and the turn stays incomplete. (One turn is incomplete, and no call an orphan.)
  pub scan_torn_session :
      (now later : ℕ) (pre : Lines) (s : Sessions) (t : String)
      → IsWhole pre
      → lines_of is_alnum session_id s ≡ pre ++ torn ∷ []
      → incomplete_turns (read_session is_alnum session_id s) ≡ t ∷ []
      → orphan_ids (read_session is_alnum session_id s) ≡ []
      → let (tally, s') = scan_session stamp is_alnum session_id now later s in
        (tally.issues ≡ 1)
        × (tally.repaired ≡ 1)
        × (read_session is_alnum session_id s' ≡ read_session is_alnum session_id s)
        × (incomplete_turns (read_session is_alnum session_id s') ≡ t ∷ [])
  unfolding scan_session
  scan_torn_session now later pre s t w l i o =
      let (found, repaired, same) =
        after_torn now later pre s t (read_session is_alnum session_id s) w l refl i o in
      (found, repaired, same, ap incomplete_turns same ∙ i)
