-- ===== src/Base/Int64.antt =====
-- Go's int64: an integer that wraps round to the range from -2^63 to 2^63 - 1.
use Prim.Native.Nat.{ℕ, ◌-◌, ◌*◌, ◌%◌, ◌^◌, ◌≤◌, ◌<◌}
use mathlib.Core.Path.{◌≡◌, ap, ◌∙◌}
use native.Mathlib.Omega.{arith}
use vk_agregator.Base.Tests.{ltb, if◌then◌else◌}
use vk_agregator.Base.Int.{
  ℤ, pos, negsuc, pos_part, neg_part, ◌+ℤ◌, ◌-ℤ◌, ◌*ℤ◌, pos-*ℤ, ◌≤ℤ◌, int_laws, one_part,
}

-- The bit pattern of an integer, and the integer that a bit pattern stands for.
abbrev to_bits : ℤ → ℕ
to_bits (pos n) = n % 2 ^ 64
to_bits (negsuc n) = 2 ^ 64 - 1 - n % 2 ^ 64

abbrev of_bits : ℕ → ℤ
of_bits r = if ltb r (2 ^ 63) then pos r else negsuc (2 ^ 64 - 1 - r)

unfoldable pub wrap64 : ℤ → ℤ
wrap64 z = of_bits (to_bits z)

abbrev pub InRange : ℤ → Type 0
InRange z = (pos_part z < 2 ^ 63) × (neg_part z ≤ 2 ^ 63)

infixl 65 ◌+₆₄◌ ◌-₆₄◌
unfoldable pub ◌+₆₄◌ : ℤ → ℤ → ℤ
a +₆₄ b = wrap64 (a +ℤ b)

unfoldable pub ◌-₆₄◌ : ℤ → ℤ → ℤ
a -₆₄ b = wrap64 (a -ℤ b)

infixl 70 ◌*₆₄◌
unfoldable pub ◌*₆₄◌ : ℤ → ℤ → ℤ
a *₆₄ b = wrap64 (a *ℤ b)

unfoldable pub neg64 : ℤ → ℤ
neg64 a = wrap64 (pos 0 -ℤ a)

pub wrap64_id : (z : ℤ) → InRange z → wrap64 z ≡ z
unfolding wrap64
wrap64_id (pos n) h = ground arith
wrap64_id (negsuc n) h = ground arith

pub *₆₄-pos : (a b : ℕ) → a * b < 2 ^ 63 → pos a *₆₄ pos b ≡ pos (a * b)
unfolding ◌*₆₄◌
*₆₄-pos a b h = ap wrap64 (pos-*ℤ a b) ∙ wrap64_id _ (h, omega arith)

pub wrap64-InRange : (z : ℤ) → InRange (wrap64 z)
unfolding wrap64
wrap64-InRange (pos n) = ground arith
wrap64-InRange (negsuc n) = ground arith

-- Adding or subtracting after a wrap is adding or subtracting before it.
pub wrap64-+ℤ : (a b : ℤ) → wrap64 (wrap64 a +ℤ b) ≡ wrap64 (a +ℤ b)
unfolding wrap64 ◌+ℤ◌
wrap64-+ℤ a b = ground arith

pub wrap64--ℤ : (a b : ℤ) → wrap64 (wrap64 a -ℤ b) ≡ wrap64 (a -ℤ b)
unfolding wrap64 ◌-ℤ◌
wrap64--ℤ a b = ground arith

pub +₆₄_exact : (a b : ℤ) → InRange (a +ℤ b) → a +₆₄ b ≡ a +ℤ b
unfolding ◌+₆₄◌
+₆₄_exact a b h = wrap64_id _ h

pub neg64_exact : (a : ℤ) → pos 0 ≤ℤ a → InRange a → neg64 a ≡ pos 0 -ℤ a
unfolding neg64 ◌-ℤ◌
neg64_exact a h r = wrap64_id _ (ground arith)

-- A charge that the balance covers is taken off without a wrap.
pub debit_exact : (b a : ℤ) → pos 0 ≤ℤ a → a ≤ℤ b → InRange b → wrap64 (b +ℤ neg64 a) ≡ b -ℤ a
debit_exact b a p q r =
    ap (λ x. wrap64 (b +ℤ x)) (neg64_exact a p (omega (int_laws, one_part a, one_part b)))
    ∙ wrap64_id _ (omega (int_laws, one_part b, one_part (b +ℤ (pos 0 -ℤ a))))
    ∙ omega int_laws
