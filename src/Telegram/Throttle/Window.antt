-- ===== src/Telegram/Throttle/Window.antt =====
-- What the guard of src/assistant/channels/telegram/reliability/throttle.py admits over time.
use private_claw.Prelude.{
  ℕ, ◌+◌, ◌-◌, ◌≤◌, ◌≡◌, refl, Bool, List, [], ◌∷◌, ◌++◌, filter, length, ltb, leb, ◌&&◌, nat_eq,
  arith, All, Bool-cases, inl, inr,
}
use private_claw.Telegram.Throttle.{drop_before}

-- The ticks do not descend, and none is past `now`.
abbrev pub IsAscendingTo : ℕ → List ℕ → Type 0
IsAscendingTo now [] = Unit
IsAscendingTo now (t ∷ ts) = (t ≤ now) × All (λ u. t ≤ u) ts × IsAscendingTo now ts

filter-All : (c : ℕ) (ts : List ℕ) → All (λ u. c ≤ u) ts → filter (leb c) ts ≡ ts
filter-All c [] h = refl
filter-All c (t ∷ ts) h = ground (arith, h.0, filter-All c ts h.1)

All-le : (c d : ℕ) (ts : List ℕ) → c ≤ d → All (λ u. d ≤ u) ts → All (λ u. c ≤ u) ts
All-le c d [] e h = tt
All-le c d (t ∷ ts) e h = (omega (arith, h.0), All-le c d ts e h.1)

pub drop_before-filter :
    (c now : ℕ) (ts : List ℕ) → IsAscendingTo now ts → drop_before c ts ≡ filter (leb c) ts
unfolding drop_before
drop_before-filter c now [] h = refl
drop_before-filter c now (t ∷ ts) h = elim (Bool-cases (ltb t c)) [
  | inl e ↦ ground (arith, e, drop_before-filter c now ts h.2)
  | inr e ↦ ground (arith, e, filter-All c ts (All-le c t ts (ground arith) h.1))
]

pub filter-filter :
    (c d : ℕ) (ts : List ℕ) → c ≤ d → filter (leb d) (filter (leb c) ts) ≡ filter (leb d) ts
filter-filter c d [] h = refl
filter-filter c d (t ∷ ts) h = ground (arith, filter-filter c d ts h)

pub filter-append :
    (p : ℕ → Bool) (xs ys : List ℕ) → filter p (xs ++ ys) ≡ filter p xs ++ filter p ys
filter-append p [] ys = refl
filter-append p (x ∷ xs) ys = ground (arith, filter-append p xs ys)

All-filter_keep : (P : ℕ → Type 0) (p : ℕ → Bool) (xs : List ℕ) → All P xs → All P (filter p xs)
All-filter_keep P p [] h = tt
All-filter_keep P p (x ∷ xs) h = elim (Bool-cases (p x)) [
  | inl e ↦ rw e (h.0, All-filter_keep P p xs h.1)
  | inr e ↦ rw e (All-filter_keep P p xs h.1)
]

pub IsAscendingTo-filter :
    (now : ℕ) (p : ℕ → Bool) (ts : List ℕ) → IsAscendingTo now ts → IsAscendingTo now (filter p ts)
IsAscendingTo-filter now p [] h = tt
IsAscendingTo-filter now p (t ∷ ts) h = elim (Bool-cases (p t)) [
  | inl e ↦ rw e (h.0, All-filter_keep (λ u. t ≤ u) p ts h.1, IsAscendingTo-filter now p ts h.2)
  | inr e ↦ rw e (IsAscendingTo-filter now p ts h.2)
]

All-snoc :
    (t now : ℕ) (ts : List ℕ) → t ≤ now → All (λ u. t ≤ u) ts → All (λ u. t ≤ u) (ts ++ now ∷ [])
All-snoc t now [] e h = (e, tt)
All-snoc t now (u ∷ ts) e h = (h.0, All-snoc t now ts e h.1)

pub IsAscendingTo-snoc :
    (last now : ℕ) (ts : List ℕ)
    → last ≤ now
    → IsAscendingTo last ts
    → IsAscendingTo now (ts ++ now ∷ [])
IsAscendingTo-snoc last now [] e h = (omega arith, tt, tt)
IsAscendingTo-snoc last now (t ∷ ts) e h = (
  omega (arith, h.0),
  All-snoc t now ts (omega (arith, h.0)) h.1,
  IsAscendingTo-snoc last now ts e h.2,
)

pub IsAscendingTo-later :
    (last now : ℕ) (ts : List ℕ) → last ≤ now → IsAscendingTo last ts → IsAscendingTo now ts
IsAscendingTo-later last now [] e h = tt
IsAscendingTo-later last now (t ∷ ts) e h =
    (omega (arith, h.0), h.1, IsAscendingTo-later last now ts e h.2)

-- the events of a window of the guard that starts at a tick
abbrev pub in_window : ℕ → ℕ → ℕ → Bool
in_window window start t = leb start t && leb t (start + window)

pub length-in_window-le :
    (window start now : ℕ) (ts : List ℕ)
    → now ≤ start + window
    → length (filter (in_window window start) ts) ≤ length (filter (leb (now - window)) ts)
length-in_window-le window start now [] h = omega arith
length-in_window-le window start now (t ∷ ts) h =
    ground (arith, length-in_window-le window start now ts h)
