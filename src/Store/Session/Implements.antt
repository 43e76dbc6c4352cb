-- ===== src/Store/Session/Implements.antt =====
-- The file store of src/assistant/store/filesystem/session.py fills the interface of
-- src/assistant/store/interfaces.py.
use Prim.Native.Char.{Char}
use private_claw.Prelude.{
  ◌≡◌, ◌<◌, ◌++◌, ◌-◌, ℕ, zero, suc, min, take, drop, length, leb, map, if◌then◌else◌, ◌==◌,
  string_eq, arith, String, refl, Bool, true, List, [], ◌∷◌, Bool-cases, inl, inr, ◌≢◌, ◌⊎◌, ap,
  sym, subst, ◌∙◌,
}
use private_claw.Store.Records.{SessionRecord}
use private_claw.Store.Interface.{SessionStore, Laws}
use private_claw.Store.Session.{
  Sessions, Outcome, holds, session_path, lines_of, sorted, valid_records, read_all_records, done,
  value_error, append, read_session, read_window, get_next_sequence, replace_session, same_session,
}
use private_claw.Store.Session.Append.{read_of_IsLog}
use private_claw.Store.Session.Log.{
  IsLog, IsAscending, below_next_after, HasFreshIds, IsWhole-holds, valid_records-holds,
}
use private_claw.Prelude.Dict.{lookup-insert}
use private_claw.Store.Session.Contract.{AreLogs, append_lem}

take-drop : (n : ℕ) (l : List SessionRecord) → take n l ++ drop n l ≡ l
take-drop zero l = refl
take-drop (suc n) [] = refl
take-drop (suc n) (x ∷ l) = ap (◌∷◌ x) (take-drop n l)

length-drop_of : (n : ℕ) (l : List SessionRecord) → length (drop n l) ≡ length l - n
length-drop_of zero l = omega arith
length-drop_of (suc n) [] = omega arith
length-drop_of (suc n) (x ∷ l) = omega (arith, length-drop_of n l)

done≢value_error : done ≢ value_error
done≢value_error e = cc e

module _ (is_alnum : Char → Bool) where
  abbrev pub filesystem : SessionStore Sessions
  filesystem = record {
    append = append is_alnum;
    read_session = read_session is_alnum;
    read_window = read_window is_alnum;
    get_next_sequence = get_next_sequence is_alnum;
    replace_session = replace_session is_alnum;
  }

  -- a batch of one session is written, one of several is refused
  append_cases :
      (r : SessionRecord) (rs : List SessionRecord) (s : Sessions)
      → ((same_session r.session_id rs ≡ true) × ((append is_alnum (r ∷ rs) s).0 ≡ done))
        ⊎ ((append is_alnum (r ∷ rs) s) ≡ (value_error, s))
  unfolding append
  append_cases r rs s = elim (Bool-cases (same_session r.session_id rs)) [
    | inl same ↦ inl (same, rw same refl)
    | inr mixed ↦ inr (rw mixed refl)
  ]

  keeps_lem :
      (rs : List SessionRecord) (s : Sessions)
      → AreLogs is_alnum s
      → AreLogs is_alnum (append is_alnum rs s).1
  unfolding append
  keeps_lem [] s h = h
  keeps_lem (r ∷ rs) s h = elim (append_cases r rs s) [
    | inl same ↦ (append_lem is_alnum r rs s h same.0).4
    | inr e ↦ subst (λ (o : Outcome × Sessions). AreLogs is_alnum o.1) (sym e) h
  ]

  accepts_lem :
      (r : SessionRecord) (rs : List SessionRecord) (s : Sessions)
      → same_session r.session_id rs ≡ true
      → (append is_alnum (r ∷ rs) s).0 ≡ done
  unfolding append
  accepts_lem r rs s h = rw h refl

  refuses_lem :
      (rs : List SessionRecord) (s : Sessions)
      → (append is_alnum rs s).0 ≡ value_error
      → (append is_alnum rs s).1 ≡ s
  unfolding append
  refuses_lem [] s h = refl
  refuses_lem (r ∷ rs) s h = elim (append_cases r rs s) [
    | inl same ↦ absurd (done≢value_error (sym same.1 ∙ h))
    | inr e ↦ ap (λ (o : Outcome × Sessions). o.1) e
  ]

  lines-replace :
      (j k : String) (rs : List SessionRecord) (s : Sessions)
      → lines_of is_alnum j (replace_session is_alnum k rs s) ≡ (
          if session_path is_alnum k == session_path is_alnum j
          then map holds rs
          else lines_of is_alnum j s)
  unfolding lines_of replace_session
  lines-replace j k rs s =
      ground
        (arith, lookup-insert (session_path is_alnum j) (session_path is_alnum k) (map holds rs) s)

  ordered_lem :
      (k : String) (s : Sessions) → AreLogs is_alnum s → IsAscending 0 (read_session is_alnum k s)
  ordered_lem k s h =
      subst (IsAscending 0) (sym (read_of_IsLog is_alnum k s (h.at k))) (h.at k).ascending

  windows_lem :
      (k : String) (max_records : ℕ) (s : Sessions)
      → 0 < max_records
      → (older : List SessionRecord) × (older ++ read_window is_alnum k max_records s
          ≡ read_session is_alnum k s)
        × (length (read_window is_alnum k max_records s)
            ≡ min max_records (length (read_session is_alnum k s)))
  unfolding read_window
  windows_lem k max_records s h =
      let records = read_session is_alnum k s in
      let n = length records - max_records in
      elim (Bool-cases (leb (length records) max_records)) [
        | inl few ↦ rw few ([], refl, ground (arith, few))
        | inr many ↦ rw many (
          take n records,
          ground (arith, h, take-drop n records),
          ground (arith, h, many, length-drop_of n records),
        )
      ]

  distinct_lem :
      (k : String) (s : Sessions) → AreLogs is_alnum s → HasFreshIds [] (read_session is_alnum k s)
  distinct_lem k s h =
      subst (HasFreshIds []) (sym (read_of_IsLog is_alnum k s (h.at k))) (h.at k).fresh

  replaces_lem :
      (k : String) (rs : List SessionRecord) (s : Sessions)
      → read_session is_alnum k (replace_session is_alnum k rs s) ≡ sorted rs
  unfolding read_all_records
  replaces_lem k rs s =
      ap (λ l. sorted (valid_records l)) (lines-replace k k rs s ∙ ground arith)
      ∙ ap sorted (valid_records-holds rs)

  restores_lem :
      (k : String) (rs : List SessionRecord) (s : Sessions)
      → AreLogs is_alnum s
      → IsAscending 0 rs
      → HasFreshIds [] rs
      → AreLogs is_alnum (replace_session is_alnum k rs s)
  restores_lem k rs s h a f =
      let whole : IsLog (map holds rs) = record {
        whole = IsWhole-holds rs;
        ascending = subst (IsAscending 0) (sym (valid_records-holds rs)) a;
        fresh = subst (HasFreshIds []) (sym (valid_records-holds rs)) f;
      } in
      record {
        at = λ j.
            rw (lines-replace j k rs s)
              (elim (Bool-cases (session_path is_alnum k == session_path is_alnum j)) [
                | inl same ↦ rw same whole
                | inr other ↦ rw other (h.at j)
              ]);
      }

  -- The file store does what the interface promises, where every file satisfies its invariant.
  pub filesystem-Laws : Laws filesystem (AreLogs is_alnum)
  unfolding get_next_sequence
  filesystem-Laws = record {
    keeps = keeps_lem;
    accepts = accepts_lem;
    grows = λ r rs s a h. (append_lem is_alnum r rs s a h).1;
    refuses = refuses_lem;
    numbers = λ k s. refl;
    above = λ k s h. below_next_after _ (ordered_lem k s h);
    ordered = ordered_lem;
    windows = windows_lem;
    distinct = distinct_lem;
    replaces = replaces_lem;
    restores = restores_lem;
  }
