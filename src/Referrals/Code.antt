-- ===== src/Referrals/Code.antt =====
-- service/referralservice/service.go: the texts of invitation codes.
pub mod Accepted
use Prim.Native.Char.{Char, code}
use Prim.Native.String.{[], ◌∷◌, count}
use vk_agregator.Base.{
  ℕ, zero, suc, ◌%◌, String, Bool, true, false, not, ◌&&◌, ◌||◌, List, nat_beq, ltb, if◌then◌else◌,
}
use vk_agregator.Base.Eq.{◌==◌, text_key}
use vk_agregator.Base.Int.{ℤ, pos, negsuc}
use vk_agregator.Base.Text.{trim_space, to_upper}
use vk_agregator.Base.Action.{Result, ok, err, other}

abbrev pub referral_alphabet : String
referral_alphabet = "23456789ABCDEFGHJKLMNPQRSTUVWXYZ"

-- `strings.ContainsRune`
abbrev pub contains_rune : String → Char → Bool
contains_rune [] c = false
contains_rune (d ∷ s) c = nat_beq (code d) (code c) || contains_rune s c

abbrev pub is_code_rune : Char → Bool
is_code_rune c = contains_rune referral_alphabet c || nat_beq (code c) 95 || nat_beq (code c) 45

abbrev pub all_runes : (Char → Bool) → String → Bool
all_runes p [] = true
all_runes p (c ∷ s) = p c && all_runes p s

-- `len` counts bytes. A text that passes the test of its characters has one for each, and the others
-- give the empty text whatever their length, so it may count characters.
unfoldable pub normalize_code : String → String
normalize_code value =
    let upper = to_upper (trim_space value) in
    if ltb (count upper) 4 || ltb 64 (count upper)
    then ""
    else if all_runes is_code_rune upper
    then upper
    else ""

-- `referralAlphabet[i]`, which is in range for a remainder by its length.
abbrev pub rune_at : ℕ → String → Char
rune_at i [] = "2"
rune_at zero (c ∷ s) = c
rune_at (suc i) (c ∷ s) = rune_at i s

abbrev pub spell : List ℕ → String
spell List.[] = ""
spell (List.◌∷◌ b bytes) = rune_at (b % 32) referral_alphabet ∷ spell bytes

-- `if length <= 0 { length = defaultCodeLength }`
abbrev pub default_code_length : ℕ
default_code_length = 10

abbrev pub code_length : ℤ → ℕ
code_length (pos n) = if nat_beq n 0 then default_code_length else n
code_length (negsuc n) = default_code_length

-- `generateCode`; `read` is `rand.Read`, for a number of bytes.
unfoldable pub generate_code : (ℕ → Result (List ℕ)) → ℤ → Result String
generate_code read length = elim (read (code_length length)) [
  | ok bytes ↦ ok (spell bytes)
  | err e ↦ err (other "referralservice: random code")
]
