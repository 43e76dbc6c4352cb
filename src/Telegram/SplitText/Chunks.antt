-- ===== src/Telegram/SplitText/Chunks.antt =====
-- The chunks that _split_text of src/assistant/channels/telegram/egress.py makes of a text.
use private_claw.Prelude.{
  ℕ, zero, suc, ◌-◌, ◌≤◌, ◌<◌, ◌≡◌, refl, some, List, [], ◌∷◌, ◌++◌, ltb, leb, length, take, drop,
  All, nat_eq, arith, ap, ◌∙◌, Bool-cases, Option-cases, inl, inr, append-nil,
}
use private_claw.Telegram.SplitText.{Text, rfind_newline, chunk_end, split_from, split_text}

-- the text that chunks make up
unfoldable pub joined : List Text → Text
joined [] = []
joined (chunk ∷ chunks) = chunk ++ joined chunks

take-drop : (n : ℕ) (text : Text) → take n text ++ drop n text ≡ text
take-drop zero text = refl
take-drop (suc n) [] = refl
take-drop (suc n) (c ∷ cs) = ap (◌∷◌ c) (take-drop n cs)

length-take-le : (n : ℕ) (text : Text) → length (take n text) ≤ n
length-take-le zero text = omega arith
length-take-le (suc n) [] = omega arith
length-take-le (suc n) (c ∷ cs) = omega (arith, length-take-le n cs)

length-take : (n : ℕ) (text : Text) → n ≤ length text → length (take n text) ≡ n
length-take zero text h = refl
length-take (suc n) [] h = absurd (omega arith)
length-take (suc n) (c ∷ cs) h = ap suc (length-take n cs (omega arith))

length-drop : (n : ℕ) (text : Text) → length (drop n text) ≡ length text - n
length-drop zero text = omega arith
length-drop (suc n) [] = omega arith
length-drop (suc n) (c ∷ cs) = omega (arith, length-drop n cs)

rfind_newline-lt : (text : Text) (n : ℕ) → rfind_newline text ≡ some n → n < length text
unfolding rfind_newline
rfind_newline-lt [] n h = absurd (cc h)
rfind_newline-lt (c ∷ cs) n h = elim (Option-cases (rfind_newline cs)) [
  | inl e ↦ ground (arith, e, h)
  | inr (m, e) ↦ ground (arith, e, h, rfind_newline-lt cs m e)
]

-- A chunk has a character at least, no more than the limit, and no more than there are.
chunk_end-bounds :
    (limit : ℕ) (text : Text)
    → 0 < limit
    → 0 < length text
    → (0 < chunk_end limit text)
      × (chunk_end limit text ≤ limit)
      × (chunk_end limit text ≤ length text)
unfolding chunk_end
chunk_end-bounds limit text h k = elim (Bool-cases (ltb limit (length text))) [
  | inr e ↦ ground (arith, e)
  | inl e ↦ elim (Option-cases (rfind_newline (take limit text))) [
    | inl f ↦ ground (arith, e, f)
    | inr (zero, f) ↦ ground (arith, e, f)
    | inr (suc n, f) ↦
        ground
          (arith, e, f, rfind_newline-lt (take limit text) (suc n) f, length-take-le limit text)
  ]
]

joined-split_from :
    (limit fuel : ℕ) (text : Text)
    → 0 < limit
    → length text ≤ fuel
    → joined (split_from limit fuel text) ≡ text
unfolding split_from joined
joined-split_from limit fuel [] h k = refl
joined-split_from limit zero (c ∷ cs) h k = absurd (omega arith)
joined-split_from limit (suc fuel) (c ∷ cs) h k =
    let end = chunk_end limit (c ∷ cs) in
    let some_taken = (chunk_end-bounds limit (c ∷ cs) h (omega arith)).0 in
    ap (λ l. take end (c ∷ cs) ++ l)
      (joined-split_from limit fuel (drop end (c ∷ cs)) h
        (omega (arith, length-drop end (c ∷ cs), some_taken, k)))
    ∙ take-drop end (c ∷ cs)

-- a chunk that the Bot API takes
abbrev pub IsChunk : ℕ → Text → Type 0
IsChunk limit chunk = (0 < length chunk) × (length chunk ≤ limit)

split_from-AreChunks :
    (limit fuel : ℕ) (text : Text) → 0 < limit → All (IsChunk limit) (split_from limit fuel text)
unfolding split_from
split_from-AreChunks limit fuel [] h = tt
split_from-AreChunks limit zero (c ∷ cs) h = tt
split_from-AreChunks limit (suc fuel) (c ∷ cs) h =
    let end = chunk_end limit (c ∷ cs) in
    let (positive, small, within) = chunk_end-bounds limit (c ∷ cs) h (omega arith) in
    let exact = length-take end (c ∷ cs) within in
    (
      (omega (arith, exact, positive), omega (arith, exact, small)),
      split_from-AreChunks limit fuel (drop end (c ∷ cs)) h,
    )

-- The chunks of a text make up the text, for a limit of at least one character; none is longer
-- than the limit; and none is empty, unless the text is.
pub split_text_lem :
    (limit : ℕ) (text : Text)
    → 0 < limit
    → (joined (split_text limit text) ≡ text)
      × (0 < length text → All (IsChunk limit) (split_text limit text))
unfolding split_text joined
split_text_lem limit text h = elim (Bool-cases (leb (length text) limit)) [
  | inl e ↦ rw e (append-nil text, (λ k. ((k, ground (arith, e)), tt)))
  | inr e ↦ rw e (
    joined-split_from limit (length text) text h (omega arith),
    (λ k. split_from-AreChunks limit (length text) text h),
  )
]
