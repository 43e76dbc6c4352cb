-- ===== src/Store/Recovery/Members.antt =====
-- What the sets and sorted lists of src/assistant/store/facade.py contain.
use private_claw.Prelude.{
  String, ◌≡◌, refl, Bool, false, not, ◌&&◌, ◌||◌, List, [], ◌∷◌, ◌++◌, map, filter, any, contains,
  arith, ◌==◌, string_eq,
}
use private_claw.Store.Records.{SessionRecord}
use private_claw.Store.Session.{insert_sorted, sorted}
use private_claw.Store.Replay.{is_terminal}
use private_claw.Store.Recovery.{
  distinct, insert_text, sorted_texts, terminal_turns, incomplete_turns,
}

pub any-append {ℓ} :
    {A : Type ℓ} (q : A → Bool) (xs ys : List A) → any q (xs ++ ys) ≡ (any q xs || any q ys)
any-append q [] ys = refl
any-append q (x ∷ xs) ys = ground (arith, any-append q xs ys)

any-insert_sorted :
    (q : SessionRecord → Bool) (r : SessionRecord) (rs : List SessionRecord)
    → any q (insert_sorted r rs) ≡ (q r || any q rs)
unfolding insert_sorted
any-insert_sorted q r [] = refl
any-insert_sorted q r (x ∷ xs) = ground (arith, any-insert_sorted q r xs)

pub any-sorted : (q : SessionRecord → Bool) (rs : List SessionRecord) → any q (sorted rs) ≡ any q rs
unfolding sorted
any-sorted q [] = refl
any-sorted q (r ∷ rs) = ground (arith, any-insert_sorted q r (sorted rs), any-sorted q rs)

pub contains-filter :
    (p : String → Bool) (xs : List String) (a : String)
    → contains (filter p xs) a ≡ (contains xs a && p a)
contains-filter p [] a = refl
contains-filter p (x ∷ xs) a = ground (arith, contains-filter p xs a)

contains-distinct : (xs : List String) (a : String) → contains (distinct xs) a ≡ contains xs a
unfolding distinct
contains-distinct [] a = refl
contains-distinct (x ∷ xs) a = ground (arith, contains-distinct xs a)

contains-insert_text :
    (x : String) (xs : List String) (a : String)
    → contains (insert_text x xs) a ≡ (x == a || contains xs a)
unfolding insert_text
contains-insert_text x [] a = refl
contains-insert_text x (y ∷ ys) a = ground (arith, contains-insert_text x ys a)

pub contains-sorted_texts :
    (xs : List String) (a : String) → contains (sorted_texts xs) a ≡ contains xs a
unfolding sorted_texts
contains-sorted_texts [] a = refl
contains-sorted_texts (x ∷ xs) a =
    ground (arith, contains-insert_text x (sorted_texts xs) a, contains-sorted_texts xs a)

-- A list that contains nothing is empty.
pub nil_of_contains : (xs : List String) → ((a : String) → contains xs a ≡ false) → xs ≡ []
nil_of_contains [] h = refl
nil_of_contains (x ∷ xs) h = absurd (ground (arith, h x))

-- a record of a turn, and the terminal record of one
abbrev pub is_of : String → SessionRecord → Bool
is_of t r = r.turn_id == t

abbrev pub ends : String → SessionRecord → Bool
ends t r = is_terminal r.record_type && is_of t r

contains-turn_ids :
    (rs : List SessionRecord) (t : String) → contains (map (λ r. r.turn_id) rs) t ≡ any (is_of t) rs
contains-turn_ids [] t = refl
contains-turn_ids (r ∷ rs) t = ground (arith, contains-turn_ids rs t)

contains-terminal_turns :
    (rs : List SessionRecord) (t : String) → contains (terminal_turns rs) t ≡ any (ends t) rs
contains-terminal_turns [] t = refl
contains-terminal_turns (r ∷ rs) t = ground (arith, contains-terminal_turns rs t)

pub contains-incomplete_turns :
    (rs : List SessionRecord) (t : String)
    → contains (incomplete_turns rs) t ≡ (any (is_of t) rs && not (any (ends t) rs))
unfolding incomplete_turns
contains-incomplete_turns rs t = ground (
  arith,
  contains-filter (λ u. not (contains (terminal_turns rs) u)) (distinct (map (λ r. r.turn_id) rs))
      t,
  contains-distinct (map (λ r. r.turn_id) rs) t,
  contains-turn_ids rs t,
  contains-terminal_turns rs t,
)
