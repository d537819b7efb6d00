-- ===== src/Base/Eq.antt =====
-- The types that Go can compare with `==`, and so use as a map's keys.
use text.Mathlib.Text.{◌==◌ as text_beq}
use text.Mathlib.TextEquality.{eq_iff}
use Prim.Native.Nat.{ℕ}
use Prim.Native.String.{String}
use mathlib.Core.Path.{◌≡◌}
use mathlib.Core.Bool.{Bool, true}
use mathlib.Core.Logic.{◌↔◌}
use vk_agregator.Base.Tests.{nat_beq, nat_beq_iff}

pub record Comparable {ℓ} (K : Type ℓ) : Type ℓ where
  pub same : K → K → Bool
  pub same_iff : (x y : K) → (same x y ≡ true) ↔ (x ≡ y)

instance abbrev pub text_key : Comparable String
text_key = record { same = text_beq; same_iff = eq_iff }

instance abbrev pub uuid_key : Comparable ℕ
uuid_key = record { same = nat_beq; same_iff = nat_beq_iff }

infix 50 ◌==◌
abbrev pub ◌==◌ {ℓ} : {K : Type ℓ} ⦃key : Comparable K⦄ → K → K → Bool
◌==◌ ⦃key⦄ x y = key.same x y
