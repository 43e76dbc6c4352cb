-- ===== src/Store/Session/Crash.antt =====
-- A crash in the middle of an append to a session file, and the append after it:
-- src/assistant/store/filesystem/session.py over file_append_lines of
-- src/assistant/store/filesystem/atomic.py.
use private_claw.Prelude.{
  ℕ, zero, suc, ◌<◌, ◌≡◌, refl, List, [], ◌∷◌, ◌++◌, ap, ◌∙◌, take, length, arith,
}
use private_claw.Store.Records.{SessionRecord}
use private_claw.Store.Session.{
  malformed, torn, holds, unended, Lines, valid_records, file_append_lines,
}
use private_claw.Store.Session.Log.{IsWhole, valid_records-holds}

-- where a crash cuts the line that it does not finish: in the record's text, or at its newline
pub data Cut : Type 0 where
  in_text at_newline : Cut

-- What reaches the disk of an append that crashes: `n` lines, and what there is of the next.
abbrev pub crashed : Cut → ℕ → List SessionRecord → Lines
crashed cut n [] = []
crashed in_text zero (r ∷ rs) = torn ∷ []
crashed at_newline zero (r ∷ rs) = unended r ∷ []
crashed cut (suc n) (r ∷ rs) = holds r ∷ crashed cut n rs

-- the records of it that a reader meets
abbrev pub met : Cut → ℕ → ℕ
met in_text n = n
met at_newline n = suc n

valid_records-crashed :
    (cut : Cut) (n : ℕ) (rs : List SessionRecord)
    → valid_records (crashed cut n rs) ≡ take (met cut n) rs
unfolding valid_records
valid_records-crashed in_text zero [] = refl
valid_records-crashed at_newline zero [] = refl
valid_records-crashed in_text (suc n) [] = refl
valid_records-crashed at_newline (suc n) [] = refl
valid_records-crashed in_text zero (r ∷ rs) = refl
valid_records-crashed at_newline zero (r ∷ rs) = refl
valid_records-crashed in_text (suc n) (r ∷ rs) = ap (◌∷◌ r) (valid_records-crashed in_text n rs)
valid_records-crashed at_newline (suc n) (r ∷ rs) =
    ap (◌∷◌ r) (valid_records-crashed at_newline n rs)

pub valid_records-++ :
    (lines more : Lines) → valid_records (lines ++ more) ≡ valid_records lines ++ valid_records more
unfolding valid_records
valid_records-++ [] more = refl
valid_records-++ (malformed ∷ lines) more = valid_records-++ lines more
valid_records-++ (torn ∷ lines) more = valid_records-++ lines more
valid_records-++ (unended r ∷ lines) more = ap (◌∷◌ r) (valid_records-++ lines more)
valid_records-++ (holds r ∷ lines) more = ap (◌∷◌ r) (valid_records-++ lines more)

append_after_cut :
    (cut : Cut) (n : ℕ) (rs : List SessionRecord) (x : SessionRecord) (xs : List SessionRecord)
    → n < length rs
    → valid_records (file_append_lines (crashed cut n rs) (x ∷ xs)) ≡ take n rs ++ xs
unfolding valid_records file_append_lines
append_after_cut cut n [] x xs h = absurd (omega arith)
append_after_cut in_text zero (r ∷ rs) x xs h = valid_records-holds xs
append_after_cut at_newline zero (r ∷ rs) x xs h = valid_records-holds xs
append_after_cut in_text (suc n) (r ∷ rs) x xs h =
    ap (◌∷◌ r) (append_after_cut in_text n rs x xs (omega arith))
append_after_cut at_newline (suc n) (r ∷ rs) x xs h =
    ap (◌∷◌ r) (append_after_cut at_newline n rs x xs (omega arith))

pub file_append-++ :
    (lines more : Lines) (rs : List SessionRecord)
    → IsWhole lines
    → file_append_lines (lines ++ more) rs ≡ lines ++ file_append_lines more rs
unfolding file_append_lines
file_append-++ [] more rs h = refl
file_append-++ (torn ∷ lines) more rs h = absurd h
file_append-++ (unended r ∷ lines) more rs h = absurd h
file_append-++ (malformed ∷ lines) more rs h = ap (◌∷◌ malformed) (file_append-++ lines more rs h)
file_append-++ (holds r ∷ lines) more rs h = ap (◌∷◌ (holds r)) (file_append-++ lines more rs h)

-- After a crash in an append that had written `n` of its lines, a reader meets the old records and
-- the first `n` new ones, and the next one too if only its newline is missing. The append after that
-- loses its first record: its line goes on where the unfinished one stops, so a reader meets only
-- the others, and no longer the record whose newline is missing.
pub append_after_crash :
    (lines : Lines) (cut : Cut) (n : ℕ) (rs : List SessionRecord) (x : SessionRecord)
    (xs : List SessionRecord)
    → IsWhole lines
    → n < length rs
    → (valid_records (lines ++ crashed cut n rs) ≡ valid_records lines ++ take (met cut n) rs)
      × (valid_records (file_append_lines (lines ++ crashed cut n rs) (x ∷ xs))
          ≡ valid_records lines ++ (take n rs ++ xs))
append_after_crash lines cut n rs x xs w h = (
  valid_records-++ lines (crashed cut n rs)
      ∙ ap (λ l. valid_records lines ++ l) (valid_records-crashed cut n rs),
  ap valid_records (file_append-++ lines (crashed cut n rs) (x ∷ xs) w)
      ∙ valid_records-++ lines (file_append_lines (crashed cut n rs) (x ∷ xs))
      ∙ ap (λ l. valid_records lines ++ l) (append_after_cut cut n rs x xs h),
)
