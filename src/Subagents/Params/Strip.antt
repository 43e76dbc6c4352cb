-- ===== src/Subagents/Params/Strip.antt =====
-- `strip` of a text, which leaves nothing to strip.
use Prim.Native.Char.{Char}
use private_claw.Prelude.{String, ◌≡◌, refl, Bool, false, ap, ◌∙◌, Bool-cases, inl, inr}
use private_claw.Subagents.Params.{strip, strip_left, strip_right, prepend}

-- empty, or begun by a character that is no space
abbrev IsTrimmed : (Char → Bool) → String → Type 0
IsTrimmed is_space String.[] = Unit
IsTrimmed is_space (String.◌∷◌ c s) = is_space c ≡ false

module _ (is_space : Char → Bool) where
  strip_left-IsTrimmed : (s : String) → IsTrimmed is_space (strip_left is_space s)
  unfolding strip_left
  strip_left-IsTrimmed String.[] = tt
  strip_left-IsTrimmed (String.◌∷◌ c s) = elim (Bool-cases (is_space c)) [
    | inl e ↦ rw e (strip_left-IsTrimmed s)
    | inr e ↦ rw e e
  ]

  strip_left_of_trimmed : (s : String) → IsTrimmed is_space s → strip_left is_space s ≡ s
  unfolding strip_left
  strip_left_of_trimmed String.[] h = refl
  strip_left_of_trimmed (String.◌∷◌ c s) h = rw h refl

  prepend-IsTrimmed :
      (c : Char) (s : String) → is_space c ≡ false → IsTrimmed is_space (prepend is_space c s)
  prepend-IsTrimmed c String.[] h = rw h h
  prepend-IsTrimmed c (String.◌∷◌ d s) h = h

  strip_right-IsTrimmed :
      (s : String) → IsTrimmed is_space s → IsTrimmed is_space (strip_right is_space s)
  unfolding strip_right
  strip_right-IsTrimmed String.[] h = tt
  strip_right-IsTrimmed (String.◌∷◌ c s) h = prepend-IsTrimmed c (strip_right is_space s) h

  strip_right-prepend :
      (c : Char) (s : String)
      → strip_right is_space s ≡ s
      → strip_right is_space (prepend is_space c s) ≡ prepend is_space c s
  unfolding strip_right
  strip_right-prepend c String.[] h = elim (Bool-cases (is_space c)) [
    | inl e ↦ rw e refl
    | inr e ↦ rw e (rw e refl)
  ]
  strip_right-prepend c (String.◌∷◌ d s) h = ap (prepend is_space c) h

  strip_right_idem :
      (s : String) → strip_right is_space (strip_right is_space s) ≡ strip_right is_space s
  unfolding strip_right
  strip_right_idem String.[] = refl
  strip_right_idem (String.◌∷◌ c s) =
      strip_right-prepend c (strip_right is_space s) (strip_right_idem s)

  pub strip_idem : (s : String) → strip is_space (strip is_space s) ≡ strip is_space s
  unfolding strip
  strip_idem s =
      let left = strip_left is_space s in
      ap (strip_right is_space) (
        strip_left_of_trimmed (strip_right is_space left)
          (strip_right-IsTrimmed left (strip_left-IsTrimmed s)))
      ∙ strip_right_idem left
