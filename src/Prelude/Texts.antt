-- ===== src/Prelude/Texts.antt =====
-- Go strings as lists of character codes: equality, `strings.Split` at one character,
-- `strings.Contains` of one character.
use Prim.Native.Nat.{ℕ}
use Prim.Native.Char.{code}
use Prim.Native.String.{String}
use mathlib.Core.Path.{◌≡◌, refl}
use mathlib.Core.Logic.{◌↔◌}
use mathlib.Core.Bool.{Bool, true, false, ◌&&◌, ◌||◌}
use mathlib.Core.List.{List, [], ◌∷◌, ◌++◌}
use native.Mathlib.Omega.{arith}
use spiderpool.Prelude.Tests.{◌==◌, if◌then◌else◌}

abbrev pub Text : Type 0
Text = List ℕ

abbrev pub codes : String → Text
codes String.[] = []
codes (String.◌∷◌ c s) = code c ∷ codes s

unfoldable pub text_eq : Text → Text → Bool
text_eq [] [] = true
text_eq [] (b ∷ t) = false
text_eq (a ∷ s) [] = false
text_eq (a ∷ s) (b ∷ t) = a == b && text_eq s t

pub text_eq_iff : (s t : Text) → (text_eq s t ≡ true) ↔ (s ≡ t)
unfolding text_eq
text_eq_iff [] [] = (λ _. refl, λ _. refl)
text_eq_iff [] (b ∷ t) = (λ e. cc, λ e. cc)
text_eq_iff (a ∷ s) [] = (λ e. cc, λ e. cc)
text_eq_iff (a ∷ s) (b ∷ t) =
    (λ e. ground (arith, text_eq_iff s t), λ e. ground (arith, text_eq_iff s t))

pub text_eq_refl : (s : Text) → text_eq s s ≡ true
text_eq_refl s = (text_eq_iff s s).1 refl

abbrev prepend : ℕ → List Text → List Text
prepend c [] = (c ∷ []) ∷ []
prepend c (w ∷ ws) = (c ∷ w) ∷ ws

-- strings.Split(s, sep) for a separator of one character: never empty.
unfoldable pub split_on : ℕ → Text → List Text
split_on sep [] = [] ∷ []
split_on sep (c ∷ s) = if c == sep then [] ∷ split_on sep s else prepend c (split_on sep s)

unfoldable pub contains_code : ℕ → Text → Bool
contains_code c [] = false
contains_code c (d ∷ s) = c == d || contains_code c s

-- A text without the separator is one part.
pub split_on_none : (sep : ℕ) (s : Text) → contains_code sep s ≡ false → split_on sep s ≡ s ∷ []
unfolding split_on contains_code
split_on_none sep [] h = refl
split_on_none sep (c ∷ s) h = ground (arith, split_on_none sep s)

-- Two texts without the separator, joined by it, are two parts.
pub split_on_one :
    (sep : ℕ) (s t : Text)
    → contains_code sep s ≡ false
    → contains_code sep t ≡ false
    → split_on sep (s ++ sep ∷ t) ≡ s ∷ t ∷ []
unfolding split_on contains_code
split_on_one sep [] t hs ht = ground (arith, split_on_none sep t)
split_on_one sep (c ∷ s) t hs ht = ground (arith, split_on_one sep s t)

-- A text without the separator, the separator, and more.
pub split_on-append :
    (sep : ℕ) (s t : Text)
    → contains_code sep s ≡ false
    → split_on sep (s ++ sep ∷ t) ≡ s ∷ split_on sep t
unfolding split_on contains_code
split_on-append sep [] t h = ground arith
split_on-append sep (c ∷ s) t h = ground (arith, split_on-append sep s t)

pub contains_code-append :
    (c : ℕ) (s t : Text) → contains_code c (s ++ t) ≡ (contains_code c s || contains_code c t)
unfolding contains_code
contains_code-append c [] t = refl
contains_code-append c (d ∷ s) t = ground (arith, contains_code-append c s t)
