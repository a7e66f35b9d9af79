-- ===== src/Base/Text.antt =====
-- JavaScript strings as the lists of their UTF-16 code units, and the string methods in use.
use Prim.Native.Char.{code}
use Prim.Native.String.{String}
use Prim.Native.Nat.{ℕ, ◌+◌}
use mathlib.Core.Path.{◌≡◌, refl, ap, ◌∙◌}
use mathlib.Core.Bool.{Bool, true, false, ◌&&◌, ◌||◌}
use mathlib.Core.List.{List, [], ◌∷◌, reverse, reverse-reverse}
use native.Mathlib.Omega.{arith}
use ghost_merchant.Base.Lists.{filter, filter-reverse, all, all-reverse}
use ghost_merchant.Base.Tests.{◌==◌, leb, if◌then◌else◌}

abbrev pub Text : Type 0
Text = List ℕ

-- A literal of the source.
unfoldable pub text : String → Text
text String.[] = []
text (String.◌∷◌ c s) = code c ∷ text s

-- `a === b` on strings.
unfoldable pub text_eq : Text → Text → Bool
text_eq [] [] = true
text_eq (a ∷ s) (b ∷ t) = a == b && text_eq s t
text_eq _ _ = false

pub text_eq_refl : (s : Text) → text_eq s s ≡ true
unfolding text_eq
text_eq_refl [] = refl
text_eq_refl (a ∷ s) = ground (arith, text_eq_refl s)

pub text_eq_sym : (s t : Text) → text_eq s t ≡ text_eq t s
unfolding text_eq
text_eq_sym [] [] = refl
text_eq_sym [] (b ∷ t) = refl
text_eq_sym (a ∷ s) [] = refl
text_eq_sym (a ∷ s) (b ∷ t) = ground (arith, text_eq_sym s t)

pub text_eq-eq : (s t : Text) → text_eq s t ≡ true → s ≡ t
unfolding text_eq
text_eq-eq [] [] h = refl
text_eq-eq [] (b ∷ t) h = cc
text_eq-eq (a ∷ s) [] h = cc
text_eq-eq (a ∷ s) (b ∷ t) h = ground (arith, text_eq-eq s t)

-- ECMAScript white space and line terminators, which `trim` and `\s` take.
unfoldable pub is_space : ℕ → Bool
is_space c =
    (leb 9 c && leb c 13)
    || c == 32
    || c == 0xa0
    || c == 0x1680
    || (leb 0x2000 c && leb c 0x200a)
    || c == 0x2028
    || c == 0x2029
    || c == 0x202f
    || c == 0x205f
    || c == 0x3000
    || c == 0xfeff

pub trim_start : Text → Text
trim_start [] = []
trim_start (c ∷ s) = let rest = trim_start s in if is_space c then rest else c ∷ s

-- `s.trim()`
unfoldable pub trim : Text → Text
unfolding trim_start is_space
trim s = reverse (trim_start (reverse (trim_start s)))

-- `\d`
abbrev pub is_digit : ℕ → Bool
is_digit c = leb b'0' c && leb c b'9'

module _ (p : ℕ → Bool) (solid : (c : ℕ) → p c ≡ true → is_space c ≡ false) where
  filter-trim_start : (s : Text) → filter p (trim_start s) ≡ filter p s
  unfolding trim_start
  filter-trim_start [] = refl
  filter-trim_start (c ∷ s) = ground (arith, solid c, filter-trim_start s)

  -- Trimming takes nothing that a test without white space keeps.
  pub filter-trim : (s : Text) → filter p (trim s) ≡ filter p s
  unfolding trim
  filter-trim s =
      filter-reverse p (trim_start (reverse (trim_start s)))
      ∙ ap reverse (filter-trim_start (reverse (trim_start s)) ∙ filter-reverse p (trim_start s))
      ∙ reverse-reverse (filter p (trim_start s))
      ∙ filter-trim_start s

  trim_start_of_all : (s : Text) → all p s ≡ true → trim_start s ≡ s
  unfolding trim_start
  trim_start_of_all [] h = refl
  trim_start_of_all (c ∷ s) h = ground (arith, solid c)

  pub trim_of_all : (s : Text) → all p s ≡ true → trim s ≡ s
  unfolding trim
  trim_of_all s h =
      ap (λ t. reverse (trim_start (reverse t))) (trim_start_of_all s h)
      ∙ ap reverse (trim_start_of_all (reverse s) (all-reverse p s h))
      ∙ reverse-reverse s

-- The digit `d` of a number as a character.
abbrev pub digit : ℕ → ℕ
digit d = b'0' + d
