-- ===== src/Pricing/Tariff/Retail.antt =====
-- What a tariff costs (service/pricingcatalog/static_catalog.go).
use native.Mathlib.Nat.{mul-le-mul_left}
use vk_agregator.Base.{ℕ, ◌*◌, ◌^◌, ◌≤◌, ◌<◌, String, true, false, ◌≡◌, refl, sym, ap, ◌∙◌, arith}
use vk_agregator.Base.Text.{trim_space, trim_space-again, is_space}
use vk_agregator.Base.Eq.{◌==◌, text_key}
use vk_agregator.Base.Int.{pos, ◌≤ℤ◌}
use vk_agregator.Base.Int64.{*₆₄-pos}
use vk_agregator.Base.Action.{ok}
use vk_agregator.Domain.Job.{operation_valid, modality_valid}
use vk_agregator.Pricing.{
  FloorUnit, ProductKey, UnitConversion, ProductPrice, internal_credits, conversion_valid,
  floor_valid, unit_valid, multiplier_valid, caps_valid_for, int64_max, normalize_price,
  normalize_key, validate_product_price, key_valid, dimensions_valid, calculate_internal_credits,
}
use vk_agregator.Pricing.Amount.{calculate_exact, one_le_mul}
use vk_agregator.Pricing.Tariff.{exact_retail_multiplier, tariff_entry, image_key}

-- A tariff's product is its retail price times its divisor.
retail_whole : (a ic fu r : ℕ) → a * ic * (r * fu * 1_000_000) ≡ r * (fu * (a * ic) * 1_000_000)
retail_whole a ic fu r = ground arith

exact_retail-pos :
    (floor ic fu retail : ℕ)
    → retail * fu * 1_000_000 < 2 ^ 63
    → retail * fu < 2 ^ 63
    → floor * ic < 2 ^ 63
    → exact_retail_multiplier
        (pos floor)
        (record { internal_credit_units = pos ic; floor_units = pos fu })
        (pos retail)
      ≡ record { numerator = pos (retail * fu * 1_000_000); denominator = pos (floor * ic) }
unfolding exact_retail_multiplier
exact_retail-pos floor ic fu retail p q r =
    rw (*₆₄-pos retail fu q) (rw (*₆₄-pos (retail * fu) 1_000_000 p) (rw (*₆₄-pos floor ic r) refl))

internal_credits_validated :
    (p : ProductPrice)
    → validate_product_price (normalize_price p) ≡ ok tt
    → internal_credits p ≡ calculate_internal_credits p.floor p.unit_conversion p.multiplier p.caps
unfolding internal_credits normalize_price
internal_credits_validated p valid = ground arith

module _ (floor ic fu retail : ℕ) (denominator_fits : floor * ic < 2 ^ 63)
    (numerator_fits : retail * fu * 1_000_000 < 2 ^ 63) (floor_positive : 1 ≤ floor)
    (conversion_positive : (1 ≤ ic) × (1 ≤ fu)) (retail_positive : 1 ≤ retail) where
  abbrev conversion : UnitConversion
  conversion = record { internal_credit_units = pos ic; floor_units = pos fu }

  exact_multiplier :
      exact_retail_multiplier (pos floor) conversion (pos retail)
      ≡ record { numerator = pos (retail * fu * 1_000_000); denominator = pos (floor * ic) }
  exact_multiplier =
      exact_retail-pos floor ic fu retail numerator_fits (omega arith) denominator_fits

  conversion_fits : conversion_valid conversion ≡ true
  unfolding conversion_valid
  conversion_fits = ground arith

  floor_fits :
      (unit : FloorUnit)
      → unit_valid unit ≡ true
      → floor_valid (record { amount = pos floor; unit = unit }) ≡ true
  unfolding floor_valid
  floor_fits unit known = ground arith

  multiplier_fits :
      multiplier_valid (exact_retail_multiplier (pos floor) conversion (pos retail)) ≡ true
  unfolding multiplier_valid
  multiplier_fits =
      let scaled : 1 ≤ retail * fu = one_le_mul retail_positive conversion_positive.1 in
      let below : 1 ≤ floor * ic = one_le_mul floor_positive conversion_positive.0 in
      rw exact_multiplier (ground arith)

  retail_fits : pos retail ≤ℤ int64_max
  retail_fits =
      let grows : retail * 1 ≤ retail * fu = mul-le-mul_left retail conversion_positive.1 in
      omega arith

  entry_calculated :
      (unit : FloorUnit)
      → unit_valid unit ≡ true
      → calculate_internal_credits
          (record { amount = pos floor; unit = unit })
          conversion
          (exact_retail_multiplier (pos floor) conversion (pos retail))
          (record { internal_credit_cap = pos retail; floor_amount_cap = pos floor })
        ≡ ok (pos retail)
  unfolding floor_valid caps_valid_for
  entry_calculated unit known =
      let fits = multiplier_fits in
      rw exact_multiplier (
        calculate_exact (record { amount = pos floor; unit = unit }) conversion
          (record { numerator = pos (retail * fu * 1_000_000); denominator = pos (floor * ic) })
          (record { internal_credit_cap = pos retail; floor_amount_cap = pos floor }) retail
          (floor_fits unit known) conversion_fits
          (ap multiplier_valid (sym exact_multiplier) ∙ fits) (retail_whole floor ic fu retail)
          retail_positive retail_fits (ground arith))

  tariff_entry_validated :
      (key : ProductKey) (unit : FloorUnit)
      → unit_valid unit ≡ true
      → key_valid (normalize_key key) ≡ true
      → validate_product_price
          (normalize_price (tariff_entry key (pos floor) unit conversion (pos retail)))
        ≡ ok tt
  unfolding normalize_price validate_product_price trim_space is_space
  tariff_entry_validated key unit known valid =
      ground (arith, valid, floor_fits unit known, multiplier_fits, conversion_fits)

  -- An entry of a tariff costs exactly the retail price that the tariff names: the markup that
  -- `exactRetailMultiplier` works out undoes the conversion, and nothing is rounded. The amounts are
  -- positive, no product overflows an int64, and the key is valid.
  pub tariff_entry-retail :
      (key : ProductKey) (unit : FloorUnit)
      → unit_valid unit ≡ true
      → key_valid (normalize_key key) ≡ true
      → internal_credits (tariff_entry key (pos floor) unit conversion (pos retail))
        ≡ ok (pos retail)
  tariff_entry-retail key unit known valid =
      internal_credits_validated _ (tariff_entry_validated key unit known valid)
      ∙ entry_calculated unit known

  image_key_kept :
      (model quality : String)
      → trim_space model == "" ≡ false
      → key_valid (normalize_key (image_key model quality)) ≡ true
  unfolding key_valid normalize_key dimensions_valid operation_valid modality_valid trim_space
      is_space
  image_key_kept model quality named = ground (arith, trim_space-again model)
