-- ===== src/Telegram/SplitText.antt =====
-- _split_text of src/assistant/channels/telegram/egress.py. A text is a list of its characters. The
-- positions are counted from the chunk's start, where the code counts them from the text's.
pub mod Chunks
mod Samples
use Prim.Native.Char.{Char, code}
use private_claw.Prelude.{
  ℕ, zero, suc, Option, none, some, List, [], ◌∷◌, ltb, leb, length, take, drop, if◌then◌else◌,
  ◌==◌, nat_eq,
}

abbrev pub Text : Type 0
Text = List Char

-- `text.rfind("\n", start, end)` of a chunk; none where it is -1
unfoldable pub rfind_newline : Text → Option ℕ
rfind_newline [] = none
rfind_newline (c ∷ cs) = elim (rfind_newline cs) [
  | some n ↦ some (suc n)
  | none ↦ if code c == 10 then some 0 else none
]

-- `end`, after a newline that is not the chunk's first character, if there is one
abbrev pub end_at : ℕ → Option ℕ → ℕ
end_at end none = end
end_at end (some zero) = end
end_at end (some (suc n)) = suc (suc n)

unfoldable pub chunk_end : ℕ → Text → ℕ
chunk_end limit text =
    if ltb limit (length text) then end_at limit (rfind_newline (take limit text)) else length text

-- the `while` loop, on fuel
unfoldable pub split_from : ℕ → ℕ → Text → List Text
unfolding chunk_end
split_from limit fuel [] = []
split_from limit zero (c ∷ cs) = []
split_from limit (suc fuel) (c ∷ cs) =
    let end = chunk_end limit (c ∷ cs) in
    take end (c ∷ cs) ∷ split_from limit fuel (drop end (c ∷ cs))

-- The fuel is the length of the text.
unfoldable pub split_text : ℕ → Text → List Text
unfolding split_from
split_text limit text =
    if leb (length text) limit then text ∷ [] else split_from limit (length text) text
