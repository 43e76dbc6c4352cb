-- ===== src/Telegram/SplitText/Samples.antt =====
-- Runs of the splitting of texts on small inputs.
use private_claw.Prelude.{◌≡◌, ◌<◌, refl, [], ◌∷◌, length, All, arith, ℕ_discrete}
use private_claw.Telegram.SplitText.{Text, rfind_newline, chunk_end, split_from, split_text}
use private_claw.Telegram.SplitText.Chunks.{joined, IsChunk, split_text_lem}

abbrev text : Text
text = "a" ∷ "b" ∷ "\n" ∷ "c" ∷ "d" ∷ "e" ∷ "f" ∷ "g" ∷ []

program : Unit {0}
unfolding rfind_newline chunk_end split_from split_text ℕ_discrete
program = tt

splits_at_the_newline :
    split_text 4 text ≡ ("a" ∷ "b" ∷ "\n" ∷ []) ∷ ("c" ∷ "d" ∷ "e" ∷ "f" ∷ []) ∷ ("g" ∷ []) ∷ []
unfolding program
splits_at_the_newline = refl

split_text_lem_example :
    (joined (split_text 4 text) ≡ text) × (0 < length text → All (IsChunk 4) (split_text 4 text))
split_text_lem_example = split_text_lem 4 text (omega arith)
