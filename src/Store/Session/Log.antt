-- ===== src/Store/Session/Log.antt =====
-- The invariant of a session's file, and what reading and numbering do where it holds.
use private_claw.Prelude.{
  ℕ, suc, ◌≤◌, ◌<◌, All, sym, String, ◌≡◌, refl, false, List, [], ◌∷◌, ◌++◌, map, contains,
  contains-append, arith, string_eq, ap, subst,
}
use private_claw.Store.Records.{SessionRecord}
use private_claw.Store.Session.{
  malformed, torn, holds, unended, Lines, valid_records, file_append_lines, insert_sorted, sorted,
  next_after, event_ids, new_records,
}

-- The sequence numbers ascend from `lo`, without two alike.
abbrev pub IsAscending : ℕ → List SessionRecord → Type 0
IsAscending lo [] = Unit
IsAscending lo (r ∷ rs) = (lo ≤ r.sequence) × IsAscending (suc r.sequence) rs

-- The numbers are `n`, `n + 1`, and so on.
abbrev pub IsNumbered : ℕ → List SessionRecord → Type 0
IsNumbered n [] = Unit
IsNumbered n (r ∷ rs) = (r.sequence ≡ n) × IsNumbered (suc n) rs

-- No event identifier stands twice, nor in `seen`.
abbrev pub HasFreshIds : List String → List SessionRecord → Type 0
HasFreshIds seen [] = Unit
HasFreshIds seen (r ∷ rs) = (contains seen r.event_id ≡ false) × HasFreshIds (r.event_id ∷ seen) rs

-- Every line was written to its end.
abbrev pub IsWhole : Lines → Type 0
IsWhole [] = Unit
IsWhole (torn ∷ lines) = ⊥
IsWhole (unended r ∷ lines) = ⊥
IsWhole (_ ∷ lines) = IsWhole lines

pub record IsLog (lines : Lines) : Type 0 where
  pub whole : IsWhole lines
  pub ascending : IsAscending 0 (valid_records lines)
  pub fresh : HasFreshIds [] (valid_records lines)

pub HasFreshIds-cong :
    (s t : List String) (rs : List SessionRecord)
    → ((a : String) → contains s a ≡ contains t a)
    → HasFreshIds s rs
    → HasFreshIds t rs
HasFreshIds-cong s t [] e h = tt
HasFreshIds-cong s t (r ∷ rs) e h = (
  ground (arith, e r.event_id),
  HasFreshIds-cong (r.event_id ∷ s) (r.event_id ∷ t) rs (λ a. rw (e a)) h.1,
)

pub HasFreshIds-append :
    (s : List String) (xs ys : List SessionRecord)
    → HasFreshIds s xs
    → HasFreshIds (event_ids xs ++ s) ys
    → HasFreshIds s (xs ++ ys)
HasFreshIds-append s [] ys hx hy = hy
HasFreshIds-append s (x ∷ xs) ys hx hy = (
  hx.0,
  HasFreshIds-append (x.event_id ∷ s) xs ys hx.1 (
      HasFreshIds-cong (x.event_id ∷ event_ids xs ++ s) (event_ids xs ++ x.event_id ∷ s) ys
        (λ a. ground (
          arith,
          contains-append (event_ids xs) s a,
          contains-append (event_ids xs) (x.event_id ∷ s) a,
        ))
        hy),
)

pub new_records-HasFreshIds :
    (seen : List String) (n : ℕ) (rs : List SessionRecord)
    → HasFreshIds seen (new_records seen n rs)
unfolding new_records
new_records-HasFreshIds seen n [] = tt
new_records-HasFreshIds seen n (r ∷ rs) = ground (
  arith,
  new_records-HasFreshIds seen n rs,
  new_records-HasFreshIds (r.event_id ∷ seen) (suc n) rs,
)

pub new_records-IsNumbered :
    (seen : List String) (n : ℕ) (rs : List SessionRecord) → IsNumbered n (new_records seen n rs)
unfolding new_records
new_records-IsNumbered seen n [] = tt
new_records-IsNumbered seen n (r ∷ rs) =
    ground (
      arith,
      new_records-IsNumbered seen n rs,
      new_records-IsNumbered (r.event_id ∷ seen) (suc n) rs,
    )

pub IsNumbered-IsAscending : (n : ℕ) (rs : List SessionRecord) → IsNumbered n rs → IsAscending n rs
IsNumbered-IsAscending n [] h = tt
IsNumbered-IsAscending n (r ∷ rs) h = (omega arith, rw h.0 (IsNumbered-IsAscending (suc n) rs h.1))

next_or : ℕ → List SessionRecord → ℕ
next_or lo [] = lo
next_or lo (r ∷ rs) = next_or (suc r.sequence) rs

next_after-next_or :
    (r : SessionRecord) (rs : List SessionRecord) → next_after (r ∷ rs) ≡ next_or 0 (r ∷ rs)
unfolding next_after next_or
next_after-next_or r [] = omega arith
next_after-next_or r (x ∷ xs) = next_after-next_or x xs

next_or-le : (lo : ℕ) (rs : List SessionRecord) → IsAscending lo rs → lo ≤ next_or lo rs
unfolding next_or
next_or-le lo [] h = omega arith
next_or-le lo (r ∷ rs) h = omega (arith, h.0, next_or-le (suc r.sequence) rs h.1)

below_next_or :
    (lo : ℕ) (rs : List SessionRecord)
    → IsAscending lo rs
    → All (λ r. r.sequence < next_or lo rs) rs
unfolding next_or
below_next_or lo [] h = tt
below_next_or lo (r ∷ rs) h =
    (omega (arith, next_or-le (suc r.sequence) rs h.1), below_next_or (suc r.sequence) rs h.1)

-- the next number is above all of them
pub below_next_after :
    (rs : List SessionRecord) → IsAscending 0 rs → All (λ r. r.sequence < next_after rs) rs
below_next_after [] h = tt
below_next_after (r ∷ rs) h =
    subst (λ n. All (λ x. x.sequence < n) (r ∷ rs)) (sym (next_after-next_or r rs))
      (below_next_or 0 (r ∷ rs) h)

IsAscending-append_or :
    (lo : ℕ) (xs ys : List SessionRecord)
    → IsAscending lo xs
    → IsAscending (next_or lo xs) ys
    → IsAscending lo (xs ++ ys)
unfolding next_or
IsAscending-append_or lo [] ys hx hy = hy
IsAscending-append_or lo (x ∷ xs) ys hx hy =
    (hx.0, IsAscending-append_or (suc x.sequence) xs ys hx.1 hy)

pub IsAscending-append :
    (xs ys : List SessionRecord)
    → IsAscending 0 xs
    → IsAscending (next_after xs) ys
    → IsAscending 0 (xs ++ ys)
unfolding next_after next_or
IsAscending-append [] ys hx hy = hy
IsAscending-append (x ∷ xs) ys hx hy =
    IsAscending-append_or 0 (x ∷ xs) ys hx
      (subst (λ n. IsAscending n ys) (next_after-next_or x xs) hy)

insert_sorted-head :
    (r : SessionRecord) (rs : List SessionRecord)
    → IsAscending (suc r.sequence) rs
    → insert_sorted r rs ≡ r ∷ rs
unfolding insert_sorted
insert_sorted-head r [] h = refl
insert_sorted-head r (x ∷ xs) h = ground arith

-- Sorting changes nothing of a list that ascends.
pub sorted_of_IsAscending : (lo : ℕ) (rs : List SessionRecord) → IsAscending lo rs → sorted rs ≡ rs
unfolding sorted
sorted_of_IsAscending lo [] h = refl
sorted_of_IsAscending lo (r ∷ rs) h =
    rw (sorted_of_IsAscending (suc r.sequence) rs h.1) (insert_sorted-head r rs h.1)

pub valid_records-holds : (rs : List SessionRecord) → valid_records (map holds rs) ≡ rs
unfolding valid_records
valid_records-holds [] = refl
valid_records-holds (r ∷ rs) = ap (◌∷◌ r) (valid_records-holds rs)

pub IsWhole-holds : (rs : List SessionRecord) → IsWhole (map holds rs)
IsWhole-holds [] = tt
IsWhole-holds (r ∷ rs) = IsWhole-holds rs

-- Appending to a file of whole lines keeps the lines and adds the records.
pub valid_records-append :
    (lines : Lines) (rs : List SessionRecord)
    → IsWhole lines
    → valid_records (file_append_lines lines rs) ≡ valid_records lines ++ rs
unfolding valid_records file_append_lines
valid_records-append [] rs h = valid_records-holds rs
valid_records-append (torn ∷ lines) rs h = absurd h
valid_records-append (unended r ∷ lines) rs h = absurd h
valid_records-append (malformed ∷ lines) rs h = valid_records-append lines rs h
valid_records-append (holds r ∷ lines) rs h = ap (◌∷◌ r) (valid_records-append lines rs h)

pub IsWhole-append :
    (lines : Lines) (rs : List SessionRecord) → IsWhole lines → IsWhole (file_append_lines lines rs)
unfolding file_append_lines
IsWhole-append [] rs h = IsWhole-holds rs
IsWhole-append (torn ∷ lines) rs h = absurd h
IsWhole-append (unended r ∷ lines) rs h = absurd h
IsWhole-append (malformed ∷ lines) rs h = IsWhole-append lines rs h
IsWhole-append (holds r ∷ lines) rs h = IsWhole-append lines rs h
