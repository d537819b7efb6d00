-- ===== src/Pricing/Tests.antt =====
-- Tests of the pricing catalog (service/pricingcatalog), and its theorems at concrete inputs.
use mathlib.Core.List.Memᴰ
use vk_agregator.Base.{◌≡◌, refl, true, [], ◌∷◌, arith}
use vk_agregator.Base.Int.{ℤ, pos, ◌+ℤ◌, ◌*ℤ◌, quo_ℤ, rem_ℤ, ◌≤ℤ◌}
use vk_agregator.Base.Int64.{◌*₆₄◌, wrap64}
use vk_agregator.Base.Text.{trim_space, is_space}
use vk_agregator.Base.Action.{ok, err, invalid_cap}
use vk_agregator.Domain.Job.{operation_valid, modality_valid}
use vk_agregator.Pricing.{
  FloorUnit, Multiplier, PriceFloor, SafetyCaps, ProductPrice, PricingSnapshot,
  identity_unit_conversion, calculate_internal_credits, ceil_scaled_product, ceil_quotient,
  within_caps, caps_valid_for, floor_valid, unit_valid, multiplier_valid, conversion_valid,
  int64_max, internal_credits, normalize_price, normalize_key, validate_product_price, key_valid,
  dimensions_valid, snapshot_valid,
}
use vk_agregator.Pricing.Amount.{IsCeiling, calculate-IsCeiling}
use vk_agregator.Pricing.Tariff.{
  image_tariff, exact_retail_multiplier, tariff_entry, image_key, apimart_credit_to_internal,
}
use vk_agregator.Pricing.Tariff.Retail.{tariff_entry-retail}
use vk_agregator.Pricing.Catalog.{
  Prices, new_catalog, index_prices, index_price, cost_estimate_credits, catalog_snapshot, look_up,
}
use vk_agregator.Pricing.Catalog.Quotes.{new_catalog-quotes}
use vk_agregator.Pricing.Catalog.Snapshots.{cost_estimate-snapshot}

-- What a run computes with.
runs : Unit {0}
unfolding calculate_internal_credits ceil_scaled_product ceil_quotient within_caps caps_valid_for
    floor_valid unit_valid multiplier_valid conversion_valid quo_ℤ rem_ℤ ◌+ℤ◌ ◌*ℤ◌ ◌*₆₄◌ wrap64
    trim_space is_space internal_credits normalize_price normalize_key validate_product_price
    key_valid dimensions_valid operation_valid modality_valid exact_retail_multiplier image_tariff
    new_catalog index_prices index_price cost_estimate_credits look_up
runs = tt

abbrev floor : PriceFloor
floor = record { amount = pos 1_000_001; unit = FloorUnit.poyo_credit_micros }

abbrev thrice : Multiplier
thrice = record { numerator = pos 3; denominator = pos 1 }

abbrev no_caps : SafetyCaps
no_caps = record { internal_credit_cap = pos 0; floor_amount_cap = pos 0 }

-- Three credits and three micros are four credits.
rounds_up : calculate_internal_credits floor identity_unit_conversion thrice no_caps ≡ ok (pos 4)
unfolding runs
rounds_up = refl

capped :
    calculate_internal_credits floor identity_unit_conversion thrice
      (record no_caps { internal_credit_cap = pos 3 })
    ≡ err invalid_cap
unfolding runs
capped = refl

calculate-IsCeiling_example :
    IsCeiling 3_000_003 1_000_000 4
    × (pos 1 ≤ℤ pos 4)
    × (pos 4 ≤ℤ int64_max)
    × (caps_valid_for no_caps (pos 4) floor ≡ true)
unfolding runs
calculate-IsCeiling_example =
    calculate-IsCeiling floor identity_unit_conversion thrice no_caps (pos 4) refl

abbrev banana_pro : ProductPrice
banana_pro =
    tariff_entry (image_key "nano_banana_pro" "2K") (pos 500_000) FloorUnit.apimart_credit_micros
      apimart_credit_to_internal (pos 30)

tariff_entry-retail_example : internal_credits banana_pro ≡ ok (pos 30)
unfolding runs
tariff_entry-retail_example =
    tariff_entry-retail 500_000 20 1 30 (omega arith) (omega arith) (omega arith)
      (omega arith, omega arith) (omega arith) (image_key "nano_banana_pro" "2K")
      FloorUnit.apimart_credit_micros refl refl

abbrev built : Prices
built = (banana_pro.key, banana_pro) ∷ []

new_catalog-quotes_example :
    (q : ℤ) × (cost_estimate_credits built (image_key " nano_banana_pro" "2K ") ≡ ok q)
    × (internal_credits banana_pro ≡ ok q)
unfolding runs
new_catalog-quotes_example =
    new_catalog-quotes (banana_pro ∷ []) banana_pro built (image_key " nano_banana_pro" "2K ") refl
      (Memᴰ.head refl) refl

cost_estimate-snapshot_example :
    (s : PricingSnapshot) × (catalog_snapshot built (image_key "nano_banana_pro" "2K") ≡ ok s)
    × (s.credits ≡ pos 30)
    × (snapshot_valid s ≡ true)
unfolding runs
cost_estimate-snapshot_example =
    cost_estimate-snapshot built (image_key "nano_banana_pro" "2K") (pos 30) refl
