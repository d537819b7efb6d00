-- ===== src/Pricing/Tariff.antt =====
-- service/pricingcatalog/static_catalog.go: the tariffs that the code holds.
pub mod Retail
use native.Mathlib.Nat.{mul-le-mul_left}
use vk_agregator.Base.{
  ℕ, ◌*◌, ◌^◌, ◌≤◌, ◌<◌, String, true, false, ◌≡◌, refl, sym, ap, ◌∙◌, List, [], ◌∷◌, ◌++◌, map,
  Option, none, some, arith,
}
use mathlib.Core.List.{flat_map}
use vk_agregator.Base.Text.{trim_space, trim_space-again, is_space}
use vk_agregator.Base.Eq.{◌==◌, text_key}
use vk_agregator.Base.Int.{ℤ, pos, ◌≤ℤ◌}
use vk_agregator.Base.Int64.{◌*₆₄◌, *₆₄-pos}
use vk_agregator.Base.Action.{ok}
use vk_agregator.Domain.Job.{Modality, OperationType, operation_valid, modality_valid}
use vk_agregator.Pricing.{
  FloorUnit, ProductKey, UnitConversion, Multiplier, ProductPrice, identity_unit_conversion,
  static_source, minor_units_per_credit, internal_credits, conversion_valid, floor_valid,
  unit_valid, multiplier_valid, caps_valid_for, int64_max, normalize_price, normalize_key,
  validate_product_price, key_valid, dimensions_valid, calculate_internal_credits,
}
use vk_agregator.Pricing.Amount.{calculate_exact, one_le_mul}

unfoldable pub unit_conversion_for_floor_unit : FloorUnit → Option UnitConversion
unit_conversion_for_floor_unit FloorUnit.usd_micros =
    some (record { internal_credit_units = pos 200; floor_units = pos 1 })
unit_conversion_for_floor_unit FloorUnit.poyo_credit_micros = some identity_unit_conversion
unit_conversion_for_floor_unit FloorUnit.internal_credit_micros = some identity_unit_conversion
unit_conversion_for_floor_unit FloorUnit.apimart_credit_micros =
    some (record { internal_credit_units = pos 20; floor_units = pos 1 })
unit_conversion_for_floor_unit FloorUnit.runway_credit_micros =
    some (record { internal_credit_units = pos 2; floor_units = pos 1 })
unit_conversion_for_floor_unit (FloorUnit.unknown s) = none

-- `mustUnitConversionForFloorUnit`; it panics where there is no conversion, which is `none` here.
abbrev pub must_unit_conversion : FloorUnit → Option UnitConversion
must_unit_conversion unit = unit_conversion_for_floor_unit unit

abbrev pub poyo_credit_to_internal : UnitConversion
poyo_credit_to_internal = identity_unit_conversion

abbrev pub apimart_credit_to_internal : UnitConversion
apimart_credit_to_internal = record { internal_credit_units = pos 20; floor_units = pos 1 }

abbrev pub runway_credit_to_internal : UnitConversion
runway_credit_to_internal = record { internal_credit_units = pos 2; floor_units = pos 1 }

-- What the package's variables hold once it is loaded.
loaded :
    (must_unit_conversion FloorUnit.poyo_credit_micros ≡ some poyo_credit_to_internal)
    × (must_unit_conversion FloorUnit.apimart_credit_micros ≡ some apimart_credit_to_internal)
    × (must_unit_conversion FloorUnit.runway_credit_micros ≡ some runway_credit_to_internal)
unfolding unit_conversion_for_floor_unit
loaded = (refl, refl, refl)

unfoldable pub exact_retail_multiplier : ℤ → UnitConversion → ℤ → Multiplier
exact_retail_multiplier floor_amount c retail = record {
  numerator = retail *₆₄ c.floor_units *₆₄ minor_units_per_credit;
  denominator = floor_amount *₆₄ c.internal_credit_units;
}

-- The entry that the three kinds of tariff have in common.
abbrev pub tariff_entry : ProductKey → ℤ → FloorUnit → UnitConversion → ℤ → ProductPrice
tariff_entry key floor_amount unit c retail = record {
  key = key;
  version = pos 3;
  source = static_source;
  floor = record { amount = floor_amount; unit = unit };
  multiplier = exact_retail_multiplier floor_amount c retail;
  unit_conversion = c;
  caps = record { internal_credit_cap = retail; floor_amount_cap = floor_amount };
  enabled = true;
  default_display_credits = pos 0;
}

abbrev pub image_key : String → String → ProductKey
image_key model quality = record {
  operation = OperationType.image_generate;
  modality = Modality.image;
  image_model_id = model;
  video_route_alias = "";
  quality = quality;
  resolution = "";
  duration_sec = pos 0;
}

abbrev pub video_key : String → String → ℤ → ProductKey
video_key alias resolution duration = record {
  operation = OperationType.video_generate;
  modality = Modality.video;
  image_model_id = "";
  video_route_alias = alias;
  quality = "";
  resolution = resolution;
  duration_sec = duration;
}

unfoldable pub image_tariff : String → String → ℤ → FloorUnit → UnitConversion → ℤ → ProductPrice
image_tariff model quality floor_amount unit c retail =
    tariff_entry (image_key model quality) floor_amount unit c retail

unfoldable pub fixed_internal_image_tariff : String → String → ℤ → ℤ → ProductPrice
fixed_internal_image_tariff model quality floor_credits retail =
    tariff_entry (image_key model quality) (floor_credits *₆₄ minor_units_per_credit)
      FloorUnit.internal_credit_micros identity_unit_conversion retail

unfoldable pub video_tariff :
    String → String → ℤ → ℤ → FloorUnit → UnitConversion → ℤ → ProductPrice
video_tariff alias resolution duration floor_amount unit c retail =
    tariff_entry (video_key alias resolution duration) floor_amount unit c retail

abbrev pub image_tariffs : List ProductPrice
unfolding image_tariff fixed_internal_image_tariff
image_tariffs =
    poyo "nano_banana_2" "1K" 5_000_000 25
    ∷ poyo "nano_banana_2" "2K" 8_000_000 30
    ∷ poyo "nano_banana_2" "4K" 12_000_000 35
    ∷ apimart "gpt_image_2" "1K" 60_000 20
    ∷ apimart "gpt_image_2" "2K" 120_000 25
    ∷ apimart "gpt_image_2" "4K" 180_000 30
    ∷ apimart "nano_banana_pro" "1K" 400_000 25
    ∷ apimart "nano_banana_pro" "2K" 500_000 30
    ∷ apimart "nano_banana_pro" "4K" 500_000 35
    ∷ fixed_internal_image_tariff "seedream_4_5" "2K" (pos 10) (pos 15)
    ∷ fixed_internal_image_tariff "seedream_4_5" "4K" (pos 15) (pos 20)
    ∷ []
  where
    poyo : String → String → ℕ → ℕ → ProductPrice
    poyo model quality floor retail =
        image_tariff model quality (pos floor) FloorUnit.poyo_credit_micros poyo_credit_to_internal
          (pos retail)

    apimart : String → String → ℕ → ℕ → ProductPrice
    apimart model quality floor retail =
        image_tariff model quality (pos floor) FloorUnit.apimart_credit_micros
          apimart_credit_to_internal (pos retail)

-- A video variant whose floor and price grow with its seconds.
abbrev pub per_second : String → FloorUnit → UnitConversion → ℤ → ℤ → String → ℤ → ProductPrice
unfolding video_tariff
per_second alias unit c floor retail resolution duration =
    video_tariff alias resolution duration (duration *₆₄ floor) unit c (duration *₆₄ retail)

abbrev pub durations : List ℤ
durations = pos 5 ∷ pos 10 ∷ []

abbrev pub hd : List String
hd = "720p" ∷ "1080p" ∷ []

abbrev pub runway_gen45 : String → List ProductPrice
unfolding video_tariff
runway_gen45 resolution =
    video_tariff "video_runway_gen4_5" resolution (pos 5) (pos 75_000_000)
      FloorUnit.poyo_credit_micros poyo_credit_to_internal (pos 225)
    ∷ video_tariff "video_runway_gen4_5" resolution (pos 10) (pos 150_000_000)
        FloorUnit.poyo_credit_micros poyo_credit_to_internal (pos 450)
    ∷ []

unfoldable pub static_product_prices : List ProductPrice
static_product_prices =
    image_tariffs
    ++ flat_map
        (λ resolution.
          map
            (per_second "video_kling_o3_standard" FloorUnit.poyo_credit_micros
              poyo_credit_to_internal (pos 10_000_000) (pos 20) resolution)
            durations)
        hd
    ++ map
        (per_second "video_seedance_2_0_fast" FloorUnit.poyo_credit_micros poyo_credit_to_internal
          (pos 28_000_000) (pos 30) "720p")
        durations
    ++ map
        (per_second "video_runway_gen4_turbo" FloorUnit.runway_credit_micros
          runway_credit_to_internal (pos 5_000_000) (pos 30) "720p")
        durations
    ++ flat_map runway_gen45 hd
