-- ===== src/Referrals/Code/Accepted.antt =====
-- The codes that are generated are codes that are accepted (service/referralservice/service.go).
use mathlib.Core.Path.{subst}
use Prim.Native.Char.{Char, code}
use Prim.Native.String.{[], ◌∷◌, count}
use vk_agregator.Base.{
  ℕ, zero, suc, ◌%◌, ◌≤◌, String, Bool, true, false, not, Option, none, some, ◌&&◌, ◌||◌, List, ltb,
  ◌≡◌, refl, sym, ap, ◌∙◌, arith, inl, inr,
}
use vk_agregator.Base.Eq.{uuid_key}
use vk_agregator.Base.Int.{ℤ}
use vk_agregator.Base.Dict.{contains, lookup, lookup_or}
use vk_agregator.Base.Letters.{upper_letters}
use vk_agregator.Base.Text.{trim_space, trim_left, trim_right, keep, is_space, to_upper}
use vk_agregator.Base.Action.{Result, ok, ok_injective, Result-cases}
use vk_agregator.Referrals.Code.{
  referral_alphabet, is_code_rune, all_runes, normalize_code, rune_at, spell, code_length,
  generate_code,
}

both-true : (a b : Bool) → (a && b) ≡ true → (a ≡ true) × (b ≡ true)
both-true true true h = (refl, refl)
both-true true false h = absurd (ground (arith, h))
both-true false b h = absurd (ground (arith, h))

not-true : (a : Bool) → not a ≡ true → a ≡ false
not-true true h = absurd (ground (arith, h))
not-true false h = refl

module _ (p : Char → Bool) where
  head-holds : (c : Char) (s : String) → all_runes p (c ∷ s) ≡ true → p c ≡ true
  head-holds c s h = (both-true (p c) (all_runes p s) h).0

  tail-holds : (c : Char) (s : String) → all_runes p (c ∷ s) ≡ true → all_runes p s ≡ true
  tail-holds c s h = (both-true (p c) (all_runes p s) h).1

  rune_at-holds :
      (i : ℕ) (s : String) → p "2" ≡ true → all_runes p s ≡ true → p (rune_at i s) ≡ true
  rune_at-holds i [] two h = two
  rune_at-holds zero (c ∷ s) two h = head-holds c s h
  rune_at-holds (suc i) (c ∷ s) two h = rune_at-holds i s two (tail-holds c s h)

-- A character that the alphabet has, and that neither trimming nor the upper case touches.
unfoldable is_plain : Char → Bool
is_plain c = is_code_rune c && (not (is_space c) && not (contains (code c) upper_letters))

alphabet_plain : (is_plain "2" ≡ true) × (all_runes is_plain referral_alphabet ≡ true)
unfolding is_plain is_space
alphabet_plain = (refl, refl)

plain_parts :
    (c : Char)
    → is_plain c ≡ true
    → (is_code_rune c ≡ true) × (is_space c ≡ false) × (contains (code c) upper_letters ≡ false)
unfolding is_plain
plain_parts c h =
    let (rune, rest) =
      both-true (is_code_rune c) (not (is_space c) && not (contains (code c) upper_letters)) h in
    let (space, upper) =
      both-true (not (is_space c)) (not (contains (code c) upper_letters)) rest in
    (rune, not-true (is_space c) space, not-true (contains (code c) upper_letters) upper)

spell-plain : (bytes : List ℕ) → all_runes is_plain (spell bytes) ≡ true
spell-plain List.[] = refl
spell-plain (List.◌∷◌ b bytes) =
    rw (rune_at-holds is_plain (b % 32) referral_alphabet alphabet_plain.0 alphabet_plain.1)
      (spell-plain bytes)

upper-same :
    (c : Char) → contains (code c) upper_letters ≡ false → lookup_or c (code c) upper_letters ≡ c
upper-same c h = kept (lookup (code c) upper_letters) h
  where
    kept :
        (found : Option Char)
        → elim found [ none ↦ false | some _ ↦ true ] ≡ false
        → elim found [ none ↦ c | some v ↦ v ] ≡ c
    kept none h = refl
    kept (some v) h = absurd (ground (arith, h))

keep-plain : (c : Char) (s : String) → is_space c ≡ false → keep c s ≡ c ∷ s
keep-plain c [] h = rw h refl
keep-plain c (d ∷ s) h = refl

trim_left-plain : (s : String) → all_runes is_plain s ≡ true → trim_left s ≡ s
trim_left-plain [] h = refl
trim_left-plain (c ∷ s) h = rw (plain_parts c (head-holds is_plain c s h)).1 refl

trim_right-plain : (s : String) → all_runes is_plain s ≡ true → trim_right s ≡ s
trim_right-plain [] h = refl
trim_right-plain (c ∷ s) h =
    ap (keep c) (trim_right-plain s (tail-holds is_plain c s h))
    ∙ keep-plain c s (plain_parts c (head-holds is_plain c s h)).1

trim_space-plain : (s : String) → all_runes is_plain s ≡ true → trim_space s ≡ s
unfolding trim_space
trim_space-plain s h = ap trim_right (trim_left-plain s h) ∙ trim_right-plain s h

to_upper-plain : (s : String) → all_runes is_plain s ≡ true → to_upper s ≡ s
unfolding to_upper
to_upper-plain [] h = refl
to_upper-plain (c ∷ s) h =
    ap (λ d. d ∷ to_upper s) (upper-same c (plain_parts c (head-holds is_plain c s h)).2)
    ∙ ap (λ t. c ∷ t) (to_upper-plain s (tail-holds is_plain c s h))

accepted_runes : (s : String) → all_runes is_plain s ≡ true → all_runes is_code_rune s ≡ true
accepted_runes [] h = refl
accepted_runes (c ∷ s) h =
    rw (plain_parts c (head-holds is_plain c s h)).0 (accepted_runes s (tail-holds is_plain c s h))

normalize_code-plain :
    (s : String) → all_runes is_plain s ≡ true → 4 ≤ count s → count s ≤ 64 → normalize_code s ≡ s
unfolding normalize_code
normalize_code-plain s h low high =
    rw (ap to_upper (trim_space-plain s h) ∙ to_upper-plain s h)
      (rw fits (rw (accepted_runes s h) refl))
  where
    fits : (ltb (count s) 4 || ltb 64 (count s)) ≡ false
    fits = ground arith

generated-plain :
    (read : ℕ → Result (List ℕ)) (length : ℤ) (value : String)
    → generate_code read length ≡ ok value
    → all_runes is_plain value ≡ true
unfolding generate_code
generated-plain read length value went = elim (Result-cases (read (code_length length))) [
  | inr (e, failed) ↦ absurd (ground (arith, failed, went))
  | inl (bytes, given) ↦
      subst (λ s. all_runes is_plain s ≡ true) (spelled bytes given) (spell-plain bytes)
]
  where
    spelled : (bytes : List ℕ) → read (code_length length) ≡ ok bytes → spell bytes ≡ value
    spelled bytes given = ok_injective (sym (rw (generate_code, given) refl) ∙ went)

-- A code that `generateCode` answers with, whatever the random bytes, is one that `NormalizeCode`
-- accepts and leaves as it is, where it is 4 to 64 characters long.
pub generate_code-accepted :
    (read : ℕ → Result (List ℕ)) (length : ℤ) (value : String)
    → generate_code read length ≡ ok value
    → 4 ≤ count value
    → count value ≤ 64
    → normalize_code value ≡ value
generate_code-accepted read length value went low high =
    normalize_code-plain value (generated-plain read length value went) low high
