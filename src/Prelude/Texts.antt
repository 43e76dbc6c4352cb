-- ===== src/Prelude/Texts.antt =====
-- Prefixes of a text, and the texts that two prefixes keep apart.
use Prim.Native.Char.{code}
use Prim.Native.String.{String, ◌++◌ as ◌&◌, count}
use mathlib.Core.Path.{◌≡◌, refl, ap, sym, ◌∙◌}
use mathlib.Core.Logic.{◌≢◌}
use mathlib.Core.Bool.{Bool, true, false, not, ◌&&◌, ◌||◌, false≢true}
use native.Mathlib.Omega.{arith}
use text.Mathlib.TextLemmas.{length-append, cons-append}
use private_claw.Prelude.Equality.{◌==◌, nat_eq}

-- `s.startswith(prefix)`
unfoldable pub starts_with : String → String → Bool
starts_with String.[] s = true
starts_with (String.◌∷◌ c p) String.[] = false
starts_with (String.◌∷◌ c p) (String.◌∷◌ d s) = code c == code d && starts_with p s

-- The texts differ at a place that both have.
unfoldable pub clash : String → String → Bool
clash String.[] s = false
clash (String.◌∷◌ c p) String.[] = false
clash (String.◌∷◌ c p) (String.◌∷◌ d s) = not (code c == code d) || clash p s

pub starts_with-append : (p s : String) → starts_with p (p & s) ≡ true
unfolding starts_with
starts_with-append String.[] s = refl
starts_with-append (String.◌∷◌ c p) s =
    ap (starts_with (String.◌∷◌ c p)) (cons-append c p s) ∙ ground (arith, starts_with-append p s)

pub starts_with-clash : (p q s : String) → clash p q ≡ true → starts_with p (q & s) ≡ false
unfolding starts_with clash
starts_with-clash String.[] q s h = absurd (false≢true h)
starts_with-clash (String.◌∷◌ c p) String.[] s h = absurd (false≢true h)
starts_with-clash (String.◌∷◌ c p) (String.◌∷◌ d q) s h =
    ap (starts_with (String.◌∷◌ c p)) (cons-append d q s) ∙ ground (arith, starts_with-clash p q s)

pub append-clash : (p q s t : String) → clash p q ≡ true → p & s ≢ q & t
append-clash p q s t h e =
    false≢true
      (sym (starts_with-clash p q t h) ∙ ap (starts_with p) (sym e) ∙ starts_with-append p s)

-- A text is not the same with something in front of it.
pub append_longer : (p s : String) → count p ≢ 0 → s ≢ p & s
append_longer p s h e = h (omega (arith, ap count e, length-append p s))
