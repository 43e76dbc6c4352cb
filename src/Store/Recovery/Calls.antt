-- ===== src/Store/Recovery/Calls.antt =====
-- The tool calls and results that src/assistant/store/facade.py collects, and the records that its
-- two repairs make.
use private_claw.Prelude.{
  ℕ, suc, String, ◌≡◌, refl, Bool, true, false, not, ◌&&◌, ◌||◌, Option, none, some, List, [], ◌∷◌,
  any, contains, arith, ◌==◌, string_eq, string_discrete, All, if◌then◌else◌,
}
use private_claw.Prelude.Dict.{Dict, lookup, lookup-insert}
use private_claw.Store.Records.{SessionRecord, Json, null, boolean, number, text, nested, get}
use private_claw.Store.Replay.{is_call, is_result}
use private_claw.Store.Recovery.{
  text_of, id_of, put, add, tool_calls, result_ids, keys, orphan_ids, terminals, results,
}
use private_claw.Store.Recovery.Members.{is_of, ends, contains-filter}

abbrev pub is_id : Option String → String → Bool
is_id none id = false
is_id (some j) id = j == id

abbrev pub is_some {ℓ} : {A : Type ℓ} → Option A → Bool
is_some none = false
is_some (some _) = true

-- a call of an identifier, and a result for one
abbrev pub asks : String → SessionRecord → Bool
asks id r = is_call r.record_type && is_id (id_of r) id

abbrev pub answers : String → SessionRecord → Bool
answers id r = is_result r.record_type && is_id (id_of r) id

contains-add :
    (o : Option String) (ids : List String) (id : String)
    → contains (add o ids) id ≡ (is_id o id || contains ids id)
contains-add none ids id = refl
contains-add (some j) ids id = refl

contains-result_ids :
    (rs : List SessionRecord) (id : String) → contains (result_ids rs) id ≡ any (answers id) rs
unfolding result_ids
contains-result_ids [] id = refl
contains-result_ids (r ∷ rs) id =
    ground (arith, contains-result_ids rs id, contains-add (id_of r) (result_ids rs) id)

lookup-put :
    (o : Option String) (r : SessionRecord) (calls : Dict String SessionRecord) (id : String)
    → lookup id (put o r calls) ≡ (if is_id o id then some r else lookup id calls)
lookup-put none r calls id = refl
lookup-put (some j) r calls id = lookup-insert id j r calls

pub known_calls :
    (calls : Dict String SessionRecord) (rs : List SessionRecord) (id : String)
    → is_some (lookup id (tool_calls calls rs)) ≡ (is_some (lookup id calls) || any (asks id) rs)
unfolding tool_calls
known_calls calls [] id = ground arith
known_calls calls (r ∷ rs) id = ground (
  arith,
  known_calls calls rs id,
  known_calls (put (id_of r) r calls) rs id,
  lookup-put (id_of r) r calls id,
)

contains-keys :
    (calls : Dict String SessionRecord) (id : String)
    → contains (keys calls) id ≡ is_some (lookup id calls)
unfolding lookup
contains-keys [] id = refl
contains-keys ((j, r) ∷ calls) id = ground (arith, contains-keys calls id)

pub contains-orphan_ids :
    (rs : List SessionRecord) (id : String)
    → contains (orphan_ids rs) id ≡ (any (asks id) rs && not (any (answers id) rs))
unfolding orphan_ids lookup
contains-orphan_ids rs id = ground (
  arith,
  contains-filter (λ i. not (contains (result_ids rs) i)) (keys (tool_calls [] rs)) id,
  contains-keys (tool_calls [] rs) id,
  known_calls [] rs id,
  contains-result_ids rs id,
)

is_id-text_of : (j : Json) → is_id (text_of j) "" ≡ false
is_id-text_of null = refl
is_id-text_of (boolean _) = refl
is_id-text_of (number _) = refl
is_id-text_of (nested _) = refl
is_id-text_of (text s) = ground arith

asks_nothing : (rs : List SessionRecord) → any (asks "") rs ≡ false
asks_nothing [] = refl
asks_nothing (r ∷ rs) =
    ground (arith, asks_nothing rs, is_id-text_of (get "tool_call_id" r.payload))

-- No call has the empty text for its identifier.
pub no_empty_call : (rs : List SessionRecord) → is_some (lookup "" (tool_calls [] rs)) ≡ false
unfolding lookup
no_empty_call rs = ground (arith, known_calls [] rs "", asks_nothing rs)

-- The source of a call is a record of a turn that the records have.
abbrev pub is_known : List SessionRecord → Option SessionRecord → Bool
is_known rs none = true
is_known rs (some r) = any (is_of r.turn_id) rs

pub call_is_known :
    (all : List SessionRecord) (calls : Dict String SessionRecord) (rs : List SessionRecord)
    (id : String)
    → All (λ r. any (is_of r.turn_id) all ≡ true) rs
    → is_known all (lookup id calls) ≡ true
    → is_known all (lookup id (tool_calls calls rs)) ≡ true
unfolding tool_calls
call_is_known all calls [] id h k = k
call_is_known all calls (r ∷ rs) id h k = ground (
  arith,
  h.0,
  call_is_known all calls rs id h.1,
  call_is_known all (put (id_of r) r calls) rs id h.1,
  lookup-put (id_of r) r calls id,
)

module _ (stamp : ℕ → String) (session_id : String) (now : ℕ) where
  pub any-terminals :
      (next : ℕ) (ids : List String) (t : String)
      → (any (is_of t) (terminals stamp session_id now next ids) ≡ contains ids t)
        × (any (ends t) (terminals stamp session_id now next ids) ≡ contains ids t)
  unfolding terminals
  any-terminals next [] t = (refl, refl)
  any-terminals next (i ∷ ids) t = ground (arith, any-terminals (suc next) ids t)

  module _ (calls : Dict String SessionRecord) where
    pub asks-results :
        (next : ℕ) (ids : List String) (id : String)
        → any (asks id) (results stamp session_id now next calls ids) ≡ false
    unfolding results
    asks-results next [] id = refl
    asks-results next (i ∷ ids) id = ground (arith, asks-results (suc next) ids id)

    pub answers-results :
        (next : ℕ) (ids : List String) (id : String)
        → is_some (lookup "" calls) ≡ false
        → any (answers id) (results stamp session_id now next calls ids)
          ≡ (contains ids id && is_some (lookup id calls))
    unfolding results get lookup string_discrete
    answers-results next [] id h = refl
    answers-results next (i ∷ ids) id h = ground (arith, answers-results (suc next) ids id h)

    pub turns-results :
        (all : List SessionRecord) (next : ℕ) (ids : List String) (t : String)
        → ((id : String) → is_known all (lookup id calls) ≡ true)
        → any (is_of t) (results stamp session_id now next calls ids) ≡ true
        → any (is_of t) all ≡ true
    unfolding results
    turns-results all next [] t k h = absurd (ground arith)
    turns-results all next (i ∷ ids) t k h =
        ground (arith, k i, turns-results all (suc next) ids t k)
