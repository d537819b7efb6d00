-- ===== src/Base/Text.antt =====
-- `strings.TrimSpace` of Go's standard library.
use Prim.Native.Char.{Char, code}
use Prim.Native.String.{String, [], ◌∷◌, ◌++◌, count, compare}
use text.Mathlib.TextLemmas.{length-append}
use Prim.Native.Nat.{◌<◌, Ordering}
use mathlib.Core.Path.{◌≡◌, refl, ap}
use mathlib.Core.Bool.{Bool, true, false, ◌||◌, ◌&&◌}
use mathlib.Core.Logic.{inl, inr}
use native.Mathlib.Omega.{arith}
use vk_agregator.Base.Dict.{lookup_or}
use vk_agregator.Base.Letters.{lower_letters, upper_letters}
use vk_agregator.Base.Eq.{uuid_key, text_key, ◌==◌}
use vk_agregator.Base.Tests.{leb, nat_beq, if◌then◌else◌, Bool-cases}

-- `unicode.IsSpace`
unfoldable pub is_space : Char → Bool
is_space c =
    (leb 9 (code c) && leb (code c) 13)
    || nat_beq (code c) 32
    || nat_beq (code c) 133
    || nat_beq (code c) 160
    || nat_beq (code c) 5760
    || (leb 8192 (code c) && leb (code c) 8202)
    || nat_beq (code c) 8232
    || nat_beq (code c) 8233
    || nat_beq (code c) 8239
    || nat_beq (code c) 8287
    || nat_beq (code c) 12288

abbrev pub trim_left : String → String
trim_left [] = []
trim_left (c ∷ s) = if is_space c then trim_left s else c ∷ s

-- A character before a text of which the spaces at the end are off.
abbrev pub keep : Char → String → String
keep c [] = if is_space c then [] else c ∷ []
keep c (d ∷ s) = c ∷ d ∷ s

abbrev pub trim_right : String → String
trim_right [] = []
trim_right (c ∷ s) = keep c (trim_right s)

unfoldable pub trim_space : String → String
trim_space s = trim_right (trim_left s)

trim_right-keep : (c : Char) (s : String) → trim_right s ≡ s → trim_right (keep c s) ≡ keep c s
trim_right-keep c [] h = elim (Bool-cases (is_space c)) [
  | inl space ↦ rw space refl
  | inr other ↦ rw other (rw other refl)
]
trim_right-keep c (d ∷ s) h = ground arith

trim_right-again : (s : String) → trim_right (trim_right s) ≡ trim_right s
trim_right-again [] = refl
trim_right-again (c ∷ s) = trim_right-keep c (trim_right s) (trim_right-again s)

trim_left-keep : (c : Char) (s : String) → is_space c ≡ false → trim_left (keep c s) ≡ keep c s
trim_left-keep c [] h = ground arith
trim_left-keep c (d ∷ s) h = ground arith

trim_left_right : (s : String) → trim_left (trim_right (trim_left s)) ≡ trim_right (trim_left s)
trim_left_right [] = refl
trim_left_right (c ∷ s) = ground (arith, trim_left_right s, trim_left-keep c (trim_right s))

-- What is trimmed stays as it is.
pub trim_space-again : (s : String) → trim_space (trim_space s) ≡ trim_space s
unfolding trim_space
trim_space-again s = rw (trim_left_right s) (trim_right-again (trim_left s))

-- `strings.ToLower`, as far as a comparison with a text of ASCII characters can tell: the other
-- characters that it changes stay as they are.
unfoldable pub to_lower : String → String
to_lower [] = []
to_lower (c ∷ s) = lookup_or c (code c) lower_letters ∷ to_lower s

-- `strings.ToUpper`, as far as a test for ASCII characters can tell.
unfoldable pub to_upper : String → String
to_upper [] = []
to_upper (c ∷ s) = lookup_or c (code c) upper_letters ∷ to_upper s

-- Go's `<` on texts.
abbrev pub text_before : String → String → Bool
text_before a b = elim (compare a b) [ Ordering.lt ↦ true | _ ↦ false ]

-- `strings.HasPrefix`
unfoldable pub has_prefix : String → String → Bool
has_prefix s [] = true
has_prefix [] (d ∷ p) = false
has_prefix (c ∷ s) (d ∷ p) = nat_beq (code c) (code d) && has_prefix s p

-- A text after a prefix that is not empty is not empty.
pub prefixed_is_set : (s t : String) → 0 < count s → s ++ t == "" ≡ false
prefixed_is_set s t h = elim (Bool-cases (s ++ t == "")) [
  | inr unset ↦ unset
  | inl e ↦
      absurd (omega (arith, length-append s t, ap count ((text_key.same_iff (s ++ t) "").0 e), h))
]
