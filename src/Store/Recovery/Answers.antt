-- ===== src/Store/Recovery/Answers.antt =====
-- What the synthetic records of src/assistant/store/facade.py make up for.
use private_claw.Prelude.{
  ℕ, String, ◌≡◌, refl, true, false, not, ◌&&◌, ◌||◌, List, [], ◌∷◌, any, arith, string_eq, All,
}
use private_claw.Prelude.Dict.{lookup}
use private_claw.Store.Records.{SessionRecord}
use private_claw.Store.Session.{next_after}
use private_claw.Store.Recovery.{
  tool_calls, orphan_ids, incomplete_turns, create_synthetic_terminals, create_orphan_tool_results,
  sorted_texts,
}
use private_claw.Store.Recovery.Members.{
  is_of, ends, contains-incomplete_turns, contains-sorted_texts,
}
use private_claw.Store.Recovery.Calls.{
  known_calls, asks, answers, is_known, contains-orphan_ids, any-terminals, asks-results,
  answers-results, turns-results, no_empty_call, call_is_known,
}

-- The synthetic terminal records end every turn.
pub terminals-settle :
    (stamp : ℕ → String) (session_id : String) (now : ℕ) (rs : List SessionRecord)
    (incomplete : List String)
    → incomplete ≡ incomplete_turns rs
    → (t : String)
    → let more = create_synthetic_terminals stamp session_id now rs incomplete in
      ((any (is_of t) rs || any (is_of t) more) && not (any (ends t) rs || any (ends t) more))
      ≡ false
unfolding create_synthetic_terminals
terminals-settle stamp session_id now rs incomplete e t = ground (
  arith,
  e,
  any-terminals stamp session_id now (next_after rs) (sorted_texts incomplete) t,
  contains-sorted_texts incomplete t,
  contains-incomplete_turns rs t,
)

All-is_of :
    (all : List SessionRecord) (rs : List SessionRecord)
    → ((t : String) → any (is_of t) rs ≡ true → any (is_of t) all ≡ true)
    → All (λ r. any (is_of r.turn_id) all ≡ true) rs
All-is_of all [] h = tt
All-is_of all (r ∷ rs) h =
    (h r.turn_id (ground arith), All-is_of all rs (λ t e. h t (ground arith)))

source_is_known :
    (rs : List SessionRecord) (id : String) → is_known rs (lookup id (tool_calls [] rs)) ≡ true
unfolding lookup
source_is_known rs id = call_is_known rs [] rs id (All-is_of rs rs (λ t e. e)) refl

-- The synthetic results answer every call, and belong to turns that there are.
pub results-settle :
    (stamp : ℕ → String) (session_id : String) (now : ℕ) (rs : List SessionRecord)
    → let more = create_orphan_tool_results stamp session_id now rs in
      ((id : String)
        → ((any (asks id) rs || any (asks id) more)
            && not (any (answers id) rs || any (answers id) more))
          ≡ false)
      × ((t : String) → any (is_of t) more ≡ true → any (is_of t) rs ≡ true)
unfolding create_orphan_tool_results lookup
results-settle stamp session_id now rs = (
  (λ id. ground (
    arith,
    asks-results stamp session_id now (tool_calls [] rs) (next_after rs)
        (sorted_texts (orphan_ids rs)) id,
    answers-results stamp session_id now (tool_calls [] rs) (next_after rs)
        (sorted_texts (orphan_ids rs)) id (no_empty_call rs),
    contains-sorted_texts (orphan_ids rs) id,
    contains-orphan_ids rs id,
    known_calls [] rs id,
  )),
  (λ t.
      turns-results stamp session_id now (tool_calls [] rs) rs (next_after rs)
        (sorted_texts (orphan_ids rs)) t (source_is_known rs)),
)
