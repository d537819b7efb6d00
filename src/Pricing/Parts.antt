-- ===== src/Pricing/Parts.antt =====
-- service/pricingcatalog/catalog.go: product keys, floors, multipliers, conversions and caps.
use vk_agregator.Base.{String, Bool, true, false, not, ◌&&◌, ◌||◌, if◌then◌else◌}
use vk_agregator.Base.Text.{trim_space}
use vk_agregator.Base.Eq.{◌==◌, text_key}
use vk_agregator.Base.Int.{ℤ, pos, ltb_ℤ, int_beq}
use vk_agregator.Domain.Job.{
  Modality, OperationType, modality_valid, operation_valid, modality_beq, operation_key,
}

abbrev pub static_source : String
static_source = "static"

abbrev pub minor_units_per_credit : ℤ
minor_units_per_credit = pos 1_000_000

-- `unknown` is a text that is none of the units.
pub data FloorUnit : Type 0 where
  usd_micros poyo_credit_micros apimart_credit_micros : FloorUnit
  runway_credit_micros internal_credit_micros : FloorUnit
  unknown : String → FloorUnit

unfoldable pub unit_valid : FloorUnit → Bool
unit_valid (FloorUnit.unknown s) = false
unit_valid _ = true

pub record ProductKey : Type 0 where
  pub operation : OperationType
  pub modality : Modality
  pub image_model_id : String
  pub video_route_alias : String
  pub quality : String
  pub resolution : String
  pub duration_sec : ℤ

unfoldable pub normalize_key : ProductKey → ProductKey
normalize_key k = record k {
  image_model_id = trim_space k.image_model_id;
  video_route_alias = trim_space k.video_route_alias;
  quality = trim_space k.quality;
  resolution = trim_space k.resolution;
}

abbrev image_key_valid : ProductKey → Bool
image_key_valid k =
    modality_beq k.modality Modality.image
    && not (k.image_model_id == "")
    && k.video_route_alias == ""
    && int_beq k.duration_sec (pos 0)

abbrev video_key_valid : ProductKey → Bool
video_key_valid k =
    modality_beq k.modality Modality.video
    && not (k.video_route_alias == "")
    && k.image_model_id == ""
    && ltb_ℤ (pos 0) k.duration_sec

-- The dimensions that an operation asks for, of a key that is normalized.
unfoldable pub dimensions_valid : OperationType → ProductKey → Bool
dimensions_valid OperationType.image_generate k = image_key_valid k
dimensions_valid OperationType.image_edit k = image_key_valid k
dimensions_valid OperationType.image_upscale k = image_key_valid k
dimensions_valid OperationType.video_generate k = video_key_valid k
dimensions_valid OperationType.video_image_to_video k = video_key_valid k
dimensions_valid OperationType.video_extend k = video_key_valid k
dimensions_valid _ k = false

unfoldable pub key_valid : ProductKey → Bool
key_valid k =
    if not (operation_valid k.operation) || not (modality_valid k.modality)
    then false
    else dimensions_valid k.operation (normalize_key k)

pub record PriceFloor : Type 0 where
  pub amount : ℤ
  pub unit : FloorUnit

unfoldable pub floor_valid : PriceFloor → Bool
floor_valid f = ltb_ℤ (pos 0) f.amount && unit_valid f.unit

pub record Multiplier : Type 0 where
  pub numerator : ℤ
  pub denominator : ℤ

abbrev pub default_multiplier : Multiplier
default_multiplier = record { numerator = pos 3; denominator = pos 1 }

unfoldable pub multiplier_valid : Multiplier → Bool
multiplier_valid m = ltb_ℤ (pos 0) m.numerator && ltb_ℤ (pos 0) m.denominator

pub record UnitConversion : Type 0 where
  pub internal_credit_units : ℤ
  pub floor_units : ℤ

abbrev pub identity_unit_conversion : UnitConversion
identity_unit_conversion = record { internal_credit_units = pos 1; floor_units = pos 1 }

unfoldable pub conversion_valid : UnitConversion → Bool
conversion_valid c = ltb_ℤ (pos 0) c.internal_credit_units && ltb_ℤ (pos 0) c.floor_units

pub record SafetyCaps : Type 0 where
  pub internal_credit_cap : ℤ
  pub floor_amount_cap : ℤ

unfoldable pub caps_valid_for : SafetyCaps → ℤ → PriceFloor → Bool
caps_valid_for c credits floor =
    if ltb_ℤ c.internal_credit_cap (pos 0) || ltb_ℤ c.floor_amount_cap (pos 0)
    then false
    else if ltb_ℤ (pos 0) c.internal_credit_cap && ltb_ℤ c.internal_credit_cap credits
    then false
    else if ltb_ℤ (pos 0) c.floor_amount_cap
        && (not (floor_valid floor) || ltb_ℤ c.floor_amount_cap floor.amount)
    then false
    else true
