-- ===== src/Store/Recovery/Settled.antt =====
-- What a scan of one session in src/assistant/store/facade.py leaves.
use Prim.Native.Char.{Char}
use private_claw.Prelude.{
  subst, sym, ℕ, String, ◌≡◌, refl, Bool, false, not, ◌&&◌, List, [], ◌∷◌, any, arith, string_eq,
  ◌∙◌,
}
use private_claw.Store.Records.{SessionRecord}
use private_claw.Store.Session.{Sessions, lines_of, append_raw, read_session, next_after}
use private_claw.Store.Session.Log.{IsWhole}
use private_claw.Store.Recovery.{
  tool_calls, orphan_ids, results, incomplete_turns, create_synthetic_terminals,
  create_orphan_tool_results, sorted_texts,
}
use private_claw.Store.Recovery.Members.{is_of, ends, contains-incomplete_turns, nil_of_contains}
use private_claw.Store.Recovery.Answers.{terminals-settle, results-settle}
use private_claw.Store.Recovery.Calls.{asks, answers, contains-orphan_ids}
use private_claw.Store.Recovery.Repairs.{
  append_raw-HasGained, same_session-terminals, same_session-results,
}
use private_claw.Store.Recovery.Scan.{
  Tally, nothing, repair_turns, repair_calls, scan_records, scan_session,
}

module _ (stamp : ℕ → String) (is_alnum : Char → Bool) (session_id : String) where
  -- Every turn of a session has its terminal record.
  abbrev pub IsEnded : Sessions → Type 0
  IsEnded s =
      (t : String)
      → (any (is_of t) (read_session is_alnum session_id s)
          && not (any (ends t) (read_session is_alnum session_id s)))
        ≡ false

  -- Every tool call has a result, and every turn its terminal record.
  abbrev pub IsAnswered : Sessions → Type 0
  IsAnswered s =
      (id : String)
      → (any (asks id) (read_session is_alnum session_id s)
          && not (any (answers id) (read_session is_alnum session_id s)))
        ≡ false

  -- The first repair: all turns are ended, and the records to go on with are those on file.
  record IsRepaired (after : Tally × List SessionRecord × Sessions) : Type 0 where
    pub whole : IsWhole (lines_of is_alnum session_id after.2)
    pub ended : IsEnded after.2
    pub current : after.1 ≡ read_session is_alnum session_id after.2

  repair_turns-IsRepaired :
      (now : ℕ) (s : Sessions) (incomplete : List String)
      → IsWhole (lines_of is_alnum session_id s)
      → incomplete ≡ incomplete_turns (read_session is_alnum session_id s)
      → IsRepaired (
          repair_turns stamp is_alnum session_id now
            (read_session is_alnum session_id s)
            incomplete
            s)
  unfolding repair_turns create_synthetic_terminals
  repair_turns-IsRepaired now s [] w e = record {
    whole = w;
    ended =
        λ t. ground (arith, e, contains-incomplete_turns (read_session is_alnum session_id s) t);
    current = refl;
  }
  repair_turns-IsRepaired now s (i ∷ is) w e =
      let rs = read_session is_alnum session_id s in
      let more = create_synthetic_terminals stamp session_id now rs (i ∷ is) in
      let g =
        append_raw-HasGained is_alnum session_id more s
          (same_session-terminals stamp session_id now (next_after rs) (sorted_texts (i ∷ is))) w in
      record {
        whole = g.whole;
        ended = λ t. ground (
          arith,
          g.gained (is_of t),
          g.gained (ends t),
          terminals-settle stamp session_id now rs (i ∷ is) e t,
        );
        current = refl;
      }

  after_calls :
      (more : List SessionRecord) (s : Sessions)
      → (repair_calls stamp is_alnum session_id more s).1 ≡ (append_raw is_alnum more s).1
  unfolding repair_calls append_raw
  after_calls [] s = refl
  after_calls (r ∷ rs) s = refl

  repair_calls-IsAnswered :
      (now : ℕ) (s : Sessions)
      → IsWhole (lines_of is_alnum session_id s)
      → IsEnded s
      → let rs = read_session is_alnum session_id s in
        let s' = (append_raw is_alnum (create_orphan_tool_results stamp session_id now rs) s).1 in
        IsWhole (lines_of is_alnum session_id s') × IsEnded s' × IsAnswered s'
  unfolding create_orphan_tool_results
  repair_calls-IsAnswered now s w h =
      let rs = read_session is_alnum session_id s in
      let more = create_orphan_tool_results stamp session_id now rs in
      let g =
        append_raw-HasGained is_alnum session_id more s
          (same_session-results stamp session_id now (tool_calls [] rs) (next_after rs)
            (sorted_texts (orphan_ids rs)))
          w in
      let (answered, turns) = results-settle stamp session_id now rs in
      (
        g.whole,
        (λ t. ground (arith, h t, turns t, g.gained (is_of t), g.gained (ends t))),
        (λ id. ground (arith, answered id, g.gained (asks id), g.gained (answers id))),
      )

  abbrev pub IsSettled : Sessions → Type 0
  IsSettled s = IsWhole (lines_of is_alnum session_id s) × IsEnded s × IsAnswered s

  scan_records-IsSettled :
      (now later : ℕ) (s : Sessions) (rs : List SessionRecord)
      → rs ≡ read_session is_alnum session_id s
      → IsWhole (lines_of is_alnum session_id s)
      → IsSettled (scan_records stamp is_alnum session_id now later rs s).1
  unfolding scan_records
  scan_records-IsSettled now later s [] e w =
      (w, (λ t. ground (arith, e)), (λ id. ground (arith, e)))
  scan_records-IsSettled now later s (r ∷ rs) e w =
      let after =
        repair_turns stamp is_alnum session_id now (r ∷ rs) (incomplete_turns (r ∷ rs)) s in
      let first : IsRepaired after =
        subst
          (λ l. IsRepaired (repair_turns stamp is_alnum session_id now l (incomplete_turns l) s))
          (sym e)
          (repair_turns-IsRepaired now s (incomplete_turns (read_session is_alnum session_id s)) w
            refl) in
      subst
        (λ l.
          IsSettled
            (repair_calls stamp is_alnum session_id
              (create_orphan_tool_results stamp session_id later l) after.2).1)
        (sym first.current)
        (subst IsSettled (sym (after_calls _ after.2))
          (repair_calls-IsAnswered later after.2 first.whole first.ended))

  scan_records_none :
      (now later : ℕ) (rs : List SessionRecord) (s : Sessions)
      → incomplete_turns rs ≡ []
      → orphan_ids rs ≡ []
      → scan_records stamp is_alnum session_id now later rs s ≡ (nothing, s)
  unfolding scan_records repair_turns repair_calls create_orphan_tool_results results sorted_texts
  scan_records_none now later [] s e f = refl
  scan_records_none now later (r ∷ rs) s e f = rw (e, f) refl

  -- After the scan of a session whose file has only whole lines, each of its turns has a terminal
  -- record and each of its tool calls a result, and the next scan of it finds nothing and changes
  -- nothing.
  pub scan_session_lem :
      (now later : ℕ) (s : Sessions)
      → IsWhole (lines_of is_alnum session_id s)
      → let s' = (scan_session stamp is_alnum session_id now later s).1 in
        IsSettled s'
        × ((now' later' : ℕ)
            → scan_session stamp is_alnum session_id now' later' s' ≡ (nothing, s'))
  unfolding scan_session
  scan_session_lem now later s w =
      let h = scan_records-IsSettled now later s (read_session is_alnum session_id s) refl w in
      let s' = (scan_session stamp is_alnum session_id now later s).1 in
      let rs = read_session is_alnum session_id s' in
      (
        h,
        (λ now' later'.
            scan_records_none now' later' rs s'
              (nil_of_contains _ (λ t. contains-incomplete_turns rs t ∙ h.1 t))
              (nil_of_contains _ (λ id. contains-orphan_ids rs id ∙ h.2 id))),
      )
