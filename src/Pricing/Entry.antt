-- ===== src/Pricing/Entry.antt =====
-- service/pricingcatalog/catalog.go: entries, what they cost, and their snapshots.
use vk_agregator.Base.{String, Bool, true, false, not, ◌&&◌, ◌||◌, if◌then◌else◌}
use vk_agregator.Base.Text.{trim_space}
use vk_agregator.Base.Eq.{◌==◌, text_key}
use vk_agregator.Base.Int.{ℤ, pos, ltb_ℤ, leb_ℤ, ◌+ℤ◌, ◌*ℤ◌, quo_ℤ, rem_ℤ}
use vk_agregator.Base.Action.{
  Result, ok, err, invalid_product_key, invalid_floor, invalid_multiplier, invalid_cap,
  invalid_snapshot, credit_calculation, invalid_product_price,
}
use vk_agregator.Domain.Job.{operation_key}
use vk_agregator.Pricing.Parts.{
  Multiplier, PriceFloor, ProductKey, SafetyCaps, UnitConversion, caps_valid_for, conversion_valid,
  floor_valid, key_valid, minor_units_per_credit, multiplier_valid, normalize_key, static_source,
}

pub record ProductPrice : Type 0 where
  pub key : ProductKey
  pub version : ℤ
  pub source : String
  pub floor : PriceFloor
  pub multiplier : Multiplier
  pub unit_conversion : UnitConversion
  pub caps : SafetyCaps
  pub enabled : Bool
  pub default_display_credits : ℤ

abbrev pub or_static : String → String
or_static s = if s == "" then static_source else s

unfoldable pub normalize_price : ProductPrice → ProductPrice
normalize_price p = record p { key = normalize_key p.key; source = or_static (trim_space p.source) }

unfoldable pub validate_product_price : ProductPrice → Result (Unit {0})
validate_product_price p =
    if not p.enabled
    then err invalid_product_price
    else if leb_ℤ p.version (pos 0)
    then err invalid_product_price
    else if p.source == ""
    then err invalid_product_price
    else if not (key_valid p.key)
    then err invalid_product_key
    else if not (floor_valid p.floor)
    then err invalid_floor
    else if not (multiplier_valid p.multiplier)
    then err invalid_multiplier
    else if not (conversion_valid p.unit_conversion)
    then err credit_calculation
    else if ltb_ℤ p.default_display_credits (pos 0)
    then err invalid_cap
    else if ltb_ℤ p.caps.internal_credit_cap (pos 0) || ltb_ℤ p.caps.floor_amount_cap (pos 0)
    then err invalid_cap
    else ok tt

-- `big.Int.IsInt64`, of a number that is not negative.
abbrev pub int64_max : ℤ
int64_max = pos 9_223_372_036_854_775_807

abbrev pub scaled_product : ℤ → UnitConversion → Multiplier → ℤ
scaled_product amount c m = amount *ℤ c.internal_credit_units *ℤ m.numerator

abbrev pub scaled_divisor : UnitConversion → Multiplier → ℤ
scaled_divisor c m = c.floor_units *ℤ m.denominator *ℤ minor_units_per_credit

-- The quotient of big integers, one more where something remains.
unfoldable pub ceil_quotient : ℤ → ℤ → ℤ
ceil_quotient a b = if ltb_ℤ (pos 0) (rem_ℤ a b) then quo_ℤ a b +ℤ pos 1 else quo_ℤ a b

abbrev ceil_exact : ℤ → ℤ → Result ℤ
ceil_exact product divisor =
    if leb_ℤ divisor (pos 0)
    then err invalid_multiplier
    else if ltb_ℤ int64_max (ceil_quotient product divisor)
        || leb_ℤ (ceil_quotient product divisor) (pos 0)
    then err credit_calculation
    else ok (ceil_quotient product divisor)

unfoldable pub ceil_scaled_product : ℤ → UnitConversion → Multiplier → Result ℤ
ceil_scaled_product amount c m =
    if leb_ℤ amount (pos 0)
    then err invalid_floor
    else if not (conversion_valid c)
    then err credit_calculation
    else if not (multiplier_valid m)
    then err invalid_multiplier
    else ceil_exact (scaled_product amount c m) (scaled_divisor c m)

-- The last test of `CalculateInternalCredits`.
unfoldable pub within_caps : SafetyCaps → PriceFloor → Result ℤ → Result ℤ
within_caps caps floor (ok credits) =
    if not (caps_valid_for caps credits floor) then err invalid_cap else ok credits
within_caps caps floor (err e) = err e

unfoldable pub calculate_internal_credits :
    PriceFloor → UnitConversion → Multiplier → SafetyCaps → Result ℤ
calculate_internal_credits floor c m caps =
    if not (floor_valid floor)
    then err invalid_floor
    else if not (conversion_valid c)
    then err credit_calculation
    else if not (multiplier_valid m)
    then err invalid_multiplier
    else if ltb_ℤ caps.internal_credit_cap (pos 0) || ltb_ℤ caps.floor_amount_cap (pos 0)
    then err invalid_cap
    else if ltb_ℤ (pos 0) caps.floor_amount_cap && ltb_ℤ caps.floor_amount_cap floor.amount
    then err invalid_cap
    else within_caps caps floor (ceil_scaled_product floor.amount c m)

abbrev credits_of : ProductPrice → Result ℤ
credits_of p = elim (validate_product_price p) [
  | ok _ ↦ calculate_internal_credits p.floor p.unit_conversion p.multiplier p.caps
  | err e ↦ err e
]

-- `ProductPrice.InternalCredits`
unfoldable pub internal_credits : ProductPrice → Result ℤ
internal_credits p = credits_of (normalize_price p)

unfoldable pub price_valid : ProductPrice → Bool
price_valid p = elim (internal_credits p) [ ok _ ↦ true | err _ ↦ false ]

unfoldable pub display_estimate_credits : ProductPrice → Result ℤ
display_estimate_credits p = elim (internal_credits (normalize_price p)) [
  | err e ↦ err e
  | ok exact ↦
      if ltb_ℤ (pos 0) p.default_display_credits then ok p.default_display_credits else ok exact
]

pub record PricingSnapshot : Type 0 where
  pub version : ℤ
  pub source : String
  pub key : ProductKey
  pub floor : PriceFloor
  pub multiplier : Multiplier
  pub unit_conversion : UnitConversion
  pub credits : ℤ
  pub internal_credit_cap : ℤ
  pub floor_amount_cap : ℤ
  pub default_display_credits : ℤ
  pub calculation_description : String

unfoldable pub snapshot_valid : PricingSnapshot → Bool
snapshot_valid s =
    ltb_ℤ (pos 0) s.version
    && not (trim_space s.source == "")
    && key_valid s.key
    && floor_valid s.floor
    && multiplier_valid s.multiplier
    && conversion_valid s.unit_conversion
    && ltb_ℤ (pos 0) s.credits
    && caps_valid_for
        (record {
          internal_credit_cap = s.internal_credit_cap;
          floor_amount_cap = s.floor_amount_cap;
        })
        s.credits s.floor

abbrev pub snapshot_at : ProductPrice → ℤ → PricingSnapshot
snapshot_at p credits = record {
  version = p.version;
  source = p.source;
  key = p.key;
  floor = p.floor;
  multiplier = p.multiplier;
  unit_conversion = p.unit_conversion;
  credits = credits;
  internal_credit_cap = p.caps.internal_credit_cap;
  floor_amount_cap = p.caps.floor_amount_cap;
  default_display_credits = p.default_display_credits;
  calculation_description = "";
}

-- `ProductPrice.Snapshot`
unfoldable pub snapshot : ProductPrice → Result PricingSnapshot
snapshot p = elim (internal_credits (normalize_price p)) [
  | err e ↦ err e
  | ok credits ↦
      if not (snapshot_valid (snapshot_at (normalize_price p) credits))
      then err invalid_snapshot
      else ok (snapshot_at (normalize_price p) credits)
]
