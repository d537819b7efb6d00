-- ===== src/Pricing/Amount.antt =====
-- What a price is worth (service/pricingcatalog/catalog.go): the exact ceiling, within the caps.
use native.Mathlib.Nat.{mod-lt, div-add-mod', mul-le-mul, mul-mod_left, mul-div_cancel}
use vk_agregator.Base.{
  ℕ, ◌+◌, ◌*◌, ◌/◌, ◌%◌, ◌≤◌, ◌<◌, ◌≡◌, refl, ap, ◌∙◌, true, arith, if◌then◌else◌, ltb, Bool-cases,
  inl, inr,
}
use vk_agregator.Base.Int.{
  ℤ, pos, negsuc, pos_part, ◌≤ℤ◌, ◌<ℤ◌, ◌+ℤ◌, ◌*ℤ◌, quo_ℤ-pos, rem_ℤ-pos, pos-*ℤ,
}
use vk_agregator.Base.Action.{ok}
use vk_agregator.Pricing.{
  PriceFloor, UnitConversion, Multiplier, SafetyCaps, ceil_quotient, ceil_scaled_product,
  calculate_internal_credits, scaled_product, scaled_divisor, conversion_valid, multiplier_valid,
  floor_valid, int64_max, within_caps, caps_valid_for,
}

-- The least number of credits whose worth, `q` times `d`, covers `n`.
abbrev pub IsCeiling : ℕ → ℕ → ℕ → Type 0
IsCeiling n d q = (n ≤ q * d) × (q * d < n + d)

abbrev ceil_div : ℕ → ℕ → ℕ
ceil_div n d = if ltb 0 (n % d) then n / d + 1 else n / d

ceil_quotient-pos : (n d : ℕ) → ceil_quotient (pos n) (pos d) ≡ pos (ceil_div n d)
unfolding ceil_quotient ◌+ℤ◌
ceil_quotient-pos n d = ground (arith, quo_ℤ-pos n d, rem_ℤ-pos n d)

-- n = q d + r with r below d, read as a ceiling.
rounded_up : (n d q r : ℕ) → q * d + r ≡ n → r < d → IsCeiling n d (if ltb 0 r then q + 1 else q)
rounded_up n d q r e h = elim (Bool-cases (ltb 0 r)) [
  | inl some_left ↦ rw some_left (ground arith)
  | inr none_left ↦ rw none_left (ground arith)
]

ceil_div-IsCeiling : (n d : ℕ) → 1 ≤ d → IsCeiling n d (ceil_div n d)
ceil_div-IsCeiling n d h = rounded_up n d (n / d) (n % d) (div-add-mod' n d) (mod-lt n h)

ceil_div_whole : (n d : ℕ) → 1 ≤ d → ceil_div (n * d) d ≡ n
ceil_div_whole n d h = rw (mul-mod_left n d) (mul-div_cancel n h)

-- The natural numbers whose ceiling a price is.
abbrev pub product_of : PriceFloor → UnitConversion → Multiplier → ℕ
product_of f c m = pos_part f.amount * pos_part c.internal_credit_units * pos_part m.numerator

abbrev pub divisor_of : UnitConversion → Multiplier → ℕ
divisor_of c m = pos_part c.floor_units * pos_part m.denominator * 1_000_000

abbrev IsPositive : ℤ → Type 0
IsPositive z = pos 0 <ℤ z

is_pos : (z : ℤ) → IsPositive z → z ≡ pos (pos_part z)
is_pos (pos n) h = refl
is_pos (negsuc n) h = absurd (omega arith)

pos-*ℤ_parts : (a b : ℤ) → IsPositive a → IsPositive b → a *ℤ b ≡ pos (pos_part a * pos_part b)
pos-*ℤ_parts a b p q =
    ap (λ x. x *ℤ b) (is_pos a p)
    ∙ ap (λ y. pos (pos_part a) *ℤ y) (is_pos b q)
    ∙ pos-*ℤ (pos_part a) (pos_part b)

scaled_product-pos :
    (f : PriceFloor) (c : UnitConversion) (m : Multiplier)
    → IsPositive f.amount
    → IsPositive c.internal_credit_units
    → IsPositive m.numerator
    → scaled_product f.amount c m ≡ pos (product_of f c m)
scaled_product-pos f c m p q r =
    ap (λ x. x *ℤ m.numerator) (pos-*ℤ_parts f.amount c.internal_credit_units p q)
    ∙ ap (λ y. pos (pos_part f.amount * pos_part c.internal_credit_units) *ℤ y)
        (is_pos m.numerator r)
    ∙ pos-*ℤ _ _

scaled_divisor-pos :
    (c : UnitConversion) (m : Multiplier)
    → IsPositive c.floor_units
    → IsPositive m.denominator
    → scaled_divisor c m ≡ pos (divisor_of c m)
scaled_divisor-pos c m p q =
    ap (λ x. x *ℤ pos 1_000_000) (pos-*ℤ_parts c.floor_units m.denominator p q) ∙ pos-*ℤ _ _

-- Every guard of a calculation that gives a price.
pub calculate_guards :
    (f : PriceFloor) (c : UnitConversion) (m : Multiplier) (caps : SafetyCaps) (q : ℤ)
    → calculate_internal_credits f c m caps ≡ ok q
    → (IsPositive f.amount × IsPositive c.internal_credit_units × IsPositive c.floor_units)
      × (IsPositive m.numerator × IsPositive m.denominator)
      × (caps_valid_for caps q f ≡ true)
      × (q ≡ ceil_quotient (scaled_product f.amount c m) (scaled_divisor c m))
      × (IsPositive q × (q ≤ℤ int64_max))
unfolding calculate_internal_credits ceil_scaled_product within_caps floor_valid conversion_valid
    multiplier_valid
calculate_guards f c m caps q e = ground arith

-- A product of positive numbers is positive.
pub one_le_mul : {a b : ℕ} → 1 ≤ a → 1 ≤ b → 1 ≤ a * b
one_le_mul p q = mul-le-mul p q

divisor_positive :
    (c : UnitConversion) (m : Multiplier)
    → IsPositive c.floor_units
    → IsPositive m.denominator
    → 1 ≤ divisor_of c m
divisor_positive c m p q = one_le_mul (one_le_mul (omega arith) (omega arith)) (omega arith)

-- A calculated price is the floor amount, converted, multiplied and rounded up: it is the least
-- whole number of credits whose worth in micros covers the product, so rounding never loses money
-- and never charges a full credit too much. It is positive, fits an int64, and is within the caps.
pub calculate-IsCeiling :
    (f : PriceFloor) (c : UnitConversion) (m : Multiplier) (caps : SafetyCaps) (q : ℤ)
    → calculate_internal_credits f c m caps ≡ ok q
    → IsCeiling (product_of f c m) (divisor_of c m) (pos_part q)
      × (pos 1 ≤ℤ q)
      × (q ≤ℤ int64_max)
      × (caps_valid_for caps q f ≡ true)
calculate-IsCeiling f c m caps q e =
    let ((fa, ic, fu), (n, d), capped, value, (positive, small)) =
      calculate_guards f c m caps q e in
    let exact =
      value
      ∙ ap (λ x. ceil_quotient x (scaled_divisor c m)) (scaled_product-pos f c m fa ic n)
      ∙ ap (λ y. ceil_quotient (pos (product_of f c m)) y) (scaled_divisor-pos c m fu d)
      ∙ ceil_quotient-pos (product_of f c m) (divisor_of c m) in
    (
      rw (ap pos_part exact) (ceil_div-IsCeiling _ _ (divisor_positive c m fu d)),
      omega arith,
      small,
      capped,
    )

-- A calculation that passes its guards and comes out whole.
pub calculate_exact :
    (f : PriceFloor) (c : UnitConversion) (m : Multiplier) (caps : SafetyCaps) (n : ℕ)
    → floor_valid f ≡ true
    → conversion_valid c ≡ true
    → multiplier_valid m ≡ true
    → product_of f c m ≡ n * divisor_of c m
    → 1 ≤ n
    → pos n ≤ℤ int64_max
    → caps_valid_for caps (pos n) f ≡ true
    → calculate_internal_credits f c m caps ≡ ok (pos n)
unfolding calculate_internal_credits ceil_scaled_product within_caps floor_valid conversion_valid
    multiplier_valid caps_valid_for
calculate_exact f c m caps n fv cv mv whole low high capped =
    let d = divisor_of c m in
    let product = scaled_product-pos f c m (ground arith) (ground arith) (ground arith) in
    let divisor = scaled_divisor-pos c m (ground arith) (ground arith) in
    let positive = divisor_positive c m (ground arith) (ground arith) in
    let quotient =
      ap (λ x. ceil_quotient x (scaled_divisor c m)) product
      ∙ ap (λ y. ceil_quotient (pos (product_of f c m)) y) divisor
      ∙ ceil_quotient-pos (product_of f c m) d
      ∙ ap (λ x. pos (ceil_div x d)) whole
      ∙ ap pos (ceil_div_whole n d positive) in
    ground arith
