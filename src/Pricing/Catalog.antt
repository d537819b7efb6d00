-- ===== src/Pricing/Catalog.antt =====
-- service/pricingcatalog/catalog.go: the catalog, which is the map that its mutex guards.
pub mod Quotes
pub mod Snapshots
use vk_agregator.Base.{
  Bool, true, false, not, ◌&&◌, ◌≡◌, ◌↔◌, Option, none, some, List, [], ◌∷◌, arith, if◌then◌else◌,
}
use vk_agregator.Base.Eq.{Comparable, ◌==◌, text_key}
use vk_agregator.Base.Int.{ℤ, int_beq, int_beq_iff}
use vk_agregator.Base.Dict.{Dict, lookup, insert, contains}
use vk_agregator.Base.Action.{
  Result, ok, err, Error, Action, invalid_product_key, price_not_found, duplicate_price,
  invalid_runtime_price,
}
use vk_agregator.Domain.Job.{operation_beq, operation_beq_iff, modality_beq, modality_beq_iff}
use vk_agregator.Pricing.{
  ProductKey, ProductPrice, PricingSnapshot, normalize_key, normalize_price, key_valid,
  validate_product_price, internal_credits, display_estimate_credits, snapshot,
}

-- Go's `==` on keys, field by field.
abbrev pub key_beq : ProductKey → ProductKey → Bool
key_beq a b =
    operation_beq a.operation b.operation
    && modality_beq a.modality b.modality
    && a.image_model_id == b.image_model_id
    && a.video_route_alias == b.video_route_alias
    && a.quality == b.quality
    && a.resolution == b.resolution
    && int_beq a.duration_sec b.duration_sec

pub key_beq_iff : (a b : ProductKey) → (key_beq a b ≡ true) ↔ (a ≡ b)
key_beq_iff a b = ground (
  arith,
  operation_beq_iff a.operation b.operation,
  modality_beq_iff a.modality b.modality,
  text_key.same_iff a.image_model_id b.image_model_id,
  text_key.same_iff a.video_route_alias b.video_route_alias,
  text_key.same_iff a.quality b.quality,
  text_key.same_iff a.resolution b.resolution,
  int_beq_iff a.duration_sec b.duration_sec,
)

instance abbrev pub product_key : Comparable ProductKey
product_key = record { same = key_beq; same_iff = key_beq_iff }

abbrev pub Prices : Type 0
Prices = Dict ProductKey ProductPrice

-- One turn of the loop of `NewCatalog`, on a price that is normalized.
unfoldable pub index_price : ProductPrice → Prices → Result Prices
index_price p index = elim (validate_product_price p) [
  | err e ↦ err e
  | ok _ ↦ elim (internal_credits p) [
    | err e ↦ err e
    | ok _ ↦ if contains p.key index then err duplicate_price else ok (insert p.key p index)
  ]
]

unfoldable pub index_prices : List ProductPrice → Prices → Result Prices
index_prices [] index = ok index
index_prices (p ∷ ps) index = elim (index_price (normalize_price p) index) [
  | err e ↦ err e
  | ok index' ↦ index_prices ps index'
]

unfoldable pub new_catalog : List ProductPrice → Result Prices
new_catalog prices = index_prices prices []

abbrev checked : ProductPrice → Result ProductPrice
checked p = elim (validate_product_price p) [ err e ↦ err e | ok _ ↦ ok p ]

abbrev look_up_normalized : Prices → ProductKey → Result ProductPrice
look_up_normalized prices key =
    if not (key_valid key)
    then err invalid_product_key
    else elim (lookup key prices) [ none ↦ err price_not_found | some p ↦ checked p ]

-- `Catalog.Lookup`
unfoldable pub look_up : Prices → ProductKey → Result ProductPrice
look_up prices key = look_up_normalized prices (normalize_key key)

unfoldable pub cost_estimate_credits : Prices → ProductKey → Result ℤ
cost_estimate_credits prices key = elim (look_up prices key) [
  | err e ↦ err e
  | ok p ↦ internal_credits p
]

unfoldable pub catalog_display_credits : Prices → ProductKey → Result ℤ
catalog_display_credits prices key = elim (look_up prices key) [
  | err e ↦ err e
  | ok p ↦ display_estimate_credits p
]

unfoldable pub catalog_snapshot : Prices → ProductKey → Result PricingSnapshot
catalog_snapshot prices key = elim (look_up prices key) [ err e ↦ err e | ok p ↦ snapshot p ]

-- `Catalog.ReplaceWith`, on the catalog that it is called on.
unfoldable pub replace_with : Prices → Action Prices (Unit {0})
replace_with [] prices = (err invalid_runtime_price, prices)
replace_with (entry ∷ rest) prices = (ok tt, entry ∷ rest)
