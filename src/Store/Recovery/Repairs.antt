-- ===== src/Store/Recovery/Repairs.antt =====
-- The repairs of src/assistant/store/facade.py, once they are on file.
use Prim.Native.Char.{Char}
use private_claw.Prelude.{
  ℕ, suc, String, ◌≡◌, refl, Bool, true, ◌||◌, List, [], ◌∷◌, any, arith, string_eq, subst, sym,
}
use private_claw.Prelude.Dict.{Dict}
use private_claw.Store.Records.{SessionRecord}
use private_claw.Store.Session.{
  Sessions, valid_records, lines_of, append_raw, read_session, read_all_records, same_session,
  file_append_lines,
}
use private_claw.Store.Session.Log.{IsWhole, valid_records-append, IsWhole-append}
use private_claw.Store.Session.Append.{lines-append}
use private_claw.Store.Recovery.{terminals, results}
use private_claw.Store.Recovery.Members.{any-append, any-sorted}

-- The file of a session has gained records, and every line of it is whole.
pub record HasGained (is_alnum : Char → Bool) (session_id : String) (more : List SessionRecord)
    (s s' : Sessions) : Type 0 where
  pub whole : IsWhole (lines_of is_alnum session_id s')
  pub gained :
      (q : SessionRecord → Bool)
      → any q (read_session is_alnum session_id s')
        ≡ (any q (read_session is_alnum session_id s) || any q more)

pub lines-append_raw :
    (is_alnum : Char → Bool) (session_id : String) (r : SessionRecord) (rs : List SessionRecord)
    (s : Sessions)
    → same_session session_id (r ∷ rs) ≡ true
    → lines_of is_alnum session_id (append_raw is_alnum (r ∷ rs) s).1
      ≡ file_append_lines (lines_of is_alnum session_id s) (r ∷ rs)
unfolding append_raw same_session
lines-append_raw is_alnum session_id r rs s h =
    ground (arith, lines-append is_alnum session_id session_id (r ∷ rs) s)

pub append_raw-HasGained :
    (is_alnum : Char → Bool) (session_id : String) (more : List SessionRecord) (s : Sessions)
    → same_session session_id more ≡ true
    → IsWhole (lines_of is_alnum session_id s)
    → HasGained is_alnum session_id more s (append_raw is_alnum more s).1
unfolding append_raw read_all_records
append_raw-HasGained is_alnum session_id [] s h w = record { whole = w; gained = λ q. ground arith }
append_raw-HasGained is_alnum session_id (r ∷ rs) s h w = record {
  whole =
      subst IsWhole (sym (lines-append_raw is_alnum session_id r rs s h))
        (IsWhole-append (lines_of is_alnum session_id s) (r ∷ rs) w);
  gained = λ q. ground (
    arith,
    lines-append_raw is_alnum session_id r rs s h,
    valid_records-append (lines_of is_alnum session_id s) (r ∷ rs) w,
    any-sorted q (valid_records (lines_of is_alnum session_id (append_raw is_alnum (r ∷ rs) s).1)),
    any-sorted q (valid_records (lines_of is_alnum session_id s)),
    any-append q (valid_records (lines_of is_alnum session_id s)) (r ∷ rs),
  );
}

module _ (stamp : ℕ → String) (session_id : String) (now : ℕ) where
  pub same_session-terminals :
      (next : ℕ) (ids : List String)
      → same_session session_id (terminals stamp session_id now next ids) ≡ true
  unfolding same_session terminals
  same_session-terminals next [] = refl
  same_session-terminals next (i ∷ ids) = ground (arith, same_session-terminals (suc next) ids)

  pub same_session-results :
      (calls : Dict String SessionRecord) (next : ℕ) (ids : List String)
      → same_session session_id (results stamp session_id now next calls ids) ≡ true
  unfolding same_session results
  same_session-results calls next [] = refl
  same_session-results calls next (i ∷ ids) =
      ground (arith, same_session-results calls (suc next) ids)
