-- ===== src/Memory/Indexes/Recency.antt =====
-- The order of the recent memories: the sort of an index that is kept sorted.
use private_claw.Prelude.{
  ℕ, ◌≤◌, ◌<◌, All-map, All-filter, String, ◌≡◌, refl, sym, Bool, true, List, [], ◌∷◌, ◌++◌, filter,
  All, leb, arith, Bool-cases, inl, inr, if◌then◌else◌, append-nil, append_assoc,
}
use private_claw.Memory.Indexes.{insert_recent, sort_onto, sort_recent}

abbrev pub Entry : Type 0
Entry = String × ℕ

-- the newest first
pub IsRecent : List Entry → Type 0
IsRecent [] = Unit
IsRecent (x ∷ l) = All (λ y. y.1 ≤ x.1) l × IsRecent l

All-insert :
    (P : Entry → Type 0) (x : Entry) (l : List Entry) → P x → All P l → All P (insert_recent x l)
unfolding insert_recent
All-insert P x [] h hs = (h, tt)
All-insert P x (y ∷ l) h hs = elim (Bool-cases (leb x.1 y.1)) [
  | inl e ↦ rw e (hs.0, All-insert P x l h hs.1)
  | inr e ↦ rw e (h, hs)
]

All-le : (m n : ℕ) (l : List Entry) → m ≤ n → All (λ y. y.1 ≤ m) l → All (λ y. y.1 ≤ n) l
All-le m n [] h hs = tt
All-le m n (y ∷ l) h hs = (omega (arith, h, hs.0), All-le m n l h hs.1)

insert-IsRecent : (x : Entry) (l : List Entry) → IsRecent l → IsRecent (insert_recent x l)
unfolding insert_recent IsRecent
insert-IsRecent x [] h = (tt, tt)
insert-IsRecent x (y ∷ l) h = elim (Bool-cases (leb x.1 y.1)) [
  | inl e ↦ rw e (All-insert (λ z. z.1 ≤ y.1) x l (ground (arith, e)) h.0, insert-IsRecent x l h.1)
  | inr e ↦ rw e ((ground (arith, e), All-le y.1 x.1 l (ground (arith, e)) h.0), h)
]

sort_onto-IsRecent : (l xs : List Entry) → IsRecent l → IsRecent (sort_onto l xs)
unfolding sort_onto
sort_onto-IsRecent l [] h = h
sort_onto-IsRecent l (x ∷ xs) h = sort_onto-IsRecent (insert_recent x l) xs (insert-IsRecent x l h)

pub sort_recent-IsRecent : (xs : List Entry) → IsRecent (sort_recent xs)
unfolding sort_recent IsRecent
sort_recent-IsRecent xs = sort_onto-IsRecent [] xs tt

sort_onto-append : (l xs ys : List Entry) → sort_onto l (xs ++ ys) ≡ sort_onto (sort_onto l xs) ys
unfolding sort_onto
sort_onto-append l [] ys = refl
sort_onto-append l (x ∷ xs) ys = sort_onto-append (insert_recent x l) xs ys

insert_oldest :
    (x : Entry) (l : List Entry) → All (λ y. x.1 ≤ y.1) l → insert_recent x l ≡ l ++ x ∷ []
unfolding insert_recent
insert_oldest x [] h = refl
insert_oldest x (y ∷ l) h = ground (arith, h.0, insert_oldest x l h.1)

older-than :
    (l : List Entry) (x : Entry) (xs : List Entry) → IsRecent (l ++ x ∷ xs) → All (λ y. x.1 ≤ y.1) l
unfolding IsRecent
older-than [] x xs h = tt
older-than (y ∷ l) x xs h = (at-middle l h.0, older-than l x xs h.1)
  where
    at-middle : (l : List Entry) → All (λ z. z.1 ≤ y.1) (l ++ x ∷ xs) → x.1 ≤ y.1
    at-middle [] h = h.0
    at-middle (z ∷ l) h = at-middle l h.1

sort_onto-sorted : (l xs : List Entry) → IsRecent (l ++ xs) → sort_onto l xs ≡ l ++ xs
unfolding sort_onto
sort_onto-sorted l [] h = sym (append-nil l)
sort_onto-sorted l (x ∷ xs) h =
    let e : insert_recent x l ≡ l ++ x ∷ [] = insert_oldest x l (older-than l x xs h) in
    rw (e, sort_onto-sorted (l ++ x ∷ []) xs (rw (append_assoc l (x ∷ []) xs) h))
      (append_assoc l (x ∷ []) xs)

-- an element that is appended to a sorted list is sorted in
pub sort_recent-append :
    (xs : List Entry) (x : Entry)
    → sort_recent (sort_recent xs ++ x ∷ []) ≡ sort_recent (xs ++ x ∷ [])
unfolding sort_recent sort_onto
sort_recent-append xs x = simp (
  sort_onto-append [] (sort_onto [] xs) (x ∷ []),
  sort_onto-append [] xs (x ∷ []),
  sort_onto-sorted [] (sort_onto [] xs) (sort_recent-IsRecent xs),
)

All-kept : (P : Entry → Type 0) (p : Entry → Bool) (l : List Entry) → All P l → All P (filter p l)
All-kept P p l h =
    All-map (λ x. (p x ≡ true) × P x) P (filter p l) (λ x hx. hx.1) (All-filter P p l h)

insert_newest : (x : Entry) (l : List Entry) → All (λ y. y.1 < x.1) l → insert_recent x l ≡ x ∷ l
unfolding insert_recent
insert_newest x [] h = refl
insert_newest x (y ∷ l) h = ground (arith, h.0)

All-lt : (m n : ℕ) (l : List Entry) → m < n → All (λ y. y.1 ≤ m) l → All (λ y. y.1 < n) l
All-lt m n [] h hs = tt
All-lt m n (y ∷ l) h hs = (omega (arith, h, hs.0), All-lt m n l h hs.1)

filter-insert :
    (p : Entry → Bool) (x : Entry) (l : List Entry)
    → IsRecent l
    → filter p (insert_recent x l) ≡ (if p x then insert_recent x (filter p l) else filter p l)
unfolding insert_recent IsRecent
filter-insert p x [] h = refl
filter-insert p x (y ∷ l) h = elim (Bool-cases (leb x.1 y.1)) [
  | inl e ↦ ground (arith, e, filter-insert p x l h.1)
  | inr e ↦ ground (
    arith,
    e,
    insert_newest x (filter p l)
        (All-kept (λ z. z.1 < x.1) p l (All-lt y.1 x.1 l (ground (arith, e)) h.0)),
  )
]

filter-sort_onto :
    (p : Entry → Bool) (l xs : List Entry)
    → IsRecent l
    → filter p (sort_onto l xs) ≡ sort_onto (filter p l) (filter p xs)
unfolding sort_onto
filter-sort_onto p l [] h = refl
filter-sort_onto p l (x ∷ xs) h = elim (Bool-cases (p x)) [
  | inl e ↦
      simp (
        e,
        filter-sort_onto p (insert_recent x l) xs (insert-IsRecent x l h),
        filter-insert p x l h,
      )
  | inr e ↦
      simp (
        e,
        filter-sort_onto p (insert_recent x l) xs (insert-IsRecent x l h),
        filter-insert p x l h,
      )
]

-- what is kept of a sorted list is the sorted list of what is kept
pub filter-sort_recent :
    (p : Entry → Bool) (xs : List Entry) → filter p (sort_recent xs) ≡ sort_recent (filter p xs)
unfolding sort_recent IsRecent
filter-sort_recent p xs = filter-sort_onto p [] xs tt
