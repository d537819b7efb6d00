-- ===== src/Pricing/Catalog/Snapshots.antt =====
-- Quotes and the snapshots that jobs are reserved with (service/pricingcatalog/catalog.go).
use vk_agregator.Base.{true, false, ◌≡◌, refl, ◌∙◌, inl, inr, String, Bool-cases, arith}
use vk_agregator.Base.Eq.{◌==◌, text_key}
use vk_agregator.Base.Int.{ℤ, pos, ltb_ℤ}
use vk_agregator.Base.Text.{trim_space, trim_space-again, is_space}
use vk_agregator.Base.Action.{ok, Result-cases}
use vk_agregator.Pricing.{
  ProductKey, ProductPrice, PricingSnapshot, normalize_key, normalize_price, key_valid, floor_valid,
  multiplier_valid, conversion_valid, validate_product_price, internal_credits, snapshot,
  snapshot_valid, snapshot_at, calculate_internal_credits, or_static,
}
use vk_agregator.Pricing.Amount.{calculate_guards}
use vk_agregator.Pricing.Catalog.{Prices, look_up, cost_estimate_credits, catalog_snapshot}
use vk_agregator.Pricing.Catalog.Quotes.{internal_credits-normalize}

or_static-trimmed : (s : String) → trim_space (or_static (trim_space s)) == "" ≡ false
or_static-trimmed s = elim (Bool-cases (trim_space s == "")) [
  | inl blank ↦ rw blank (unfold trim_space in unfold is_space in refl)
  | inr named ↦ rw named (rw (trim_space-again s) named)
]

-- What `InternalCredits` has tested of a price, when it has given an amount.
priced_guards :
    (p : ProductPrice) (q : ℤ)
    → internal_credits p ≡ ok q
    → (ltb_ℤ (pos 0) p.version ≡ true)
      × (key_valid (normalize_key p.key) ≡ true)
      × (floor_valid p.floor ≡ true)
      × (multiplier_valid p.multiplier ≡ true)
      × (conversion_valid p.unit_conversion ≡ true)
      × (calculate_internal_credits p.floor p.unit_conversion p.multiplier p.caps ≡ ok q)
unfolding internal_credits validate_product_price normalize_price
priced_guards p q priced = ground arith

-- A price has what its snapshot is checked for.
snapshot-fits :
    (p : ProductPrice) (q : ℤ)
    → internal_credits p ≡ ok q
    → snapshot_valid (snapshot_at (normalize_price p) q) ≡ true
unfolding snapshot_valid normalize_price
snapshot-fits p q priced =
    let (v, k, f, m, c, amount) = priced_guards p q priced in
    let (fs, ms, capped, value, (positive, small)) =
      calculate_guards p.floor p.unit_conversion p.multiplier p.caps q amount in
    let trimmed = or_static-trimmed p.source in ground arith

snapshot_priced :
    (p : ProductPrice) (q : ℤ)
    → internal_credits p ≡ ok q
    → snapshot p ≡ ok (snapshot_at (normalize_price p) q)
unfolding snapshot
snapshot_priced p q priced =
    let fits = snapshot-fits p q priced in
    let again = internal_credits-normalize p ∙ priced in ground arith

quote_guards :
    (prices : Prices) (key : ProductKey) (q : ℤ)
    → cost_estimate_credits prices key ≡ ok q
    → (p : ProductPrice) × (look_up prices key ≡ ok p) × (internal_credits p ≡ ok q)
unfolding cost_estimate_credits
quote_guards prices key q e = elim (Result-cases (look_up prices key)) [
  | inl (p, seen) ↦ (p, seen, ground arith)
  | inr (x, missing) ↦ absurd (ground arith)
]

snapshot_of_quote :
    (prices : Prices) (key : ProductKey) (p : ProductPrice) (s : PricingSnapshot)
    → look_up prices key ≡ ok p
    → snapshot p ≡ ok s
    → catalog_snapshot prices key ≡ ok s
unfolding catalog_snapshot
snapshot_of_quote prices key p s seen e = ground arith

-- What is quoted is what is reserved: whenever the catalog quotes a key at a price, its snapshot of
-- the key exists, is valid, and holds that very price.
pub cost_estimate-snapshot :
    (prices : Prices) (key : ProductKey) (q : ℤ)
    → cost_estimate_credits prices key ≡ ok q
    → (s : PricingSnapshot) × (catalog_snapshot prices key ≡ ok s)
      × (s.credits ≡ q)
      × (snapshot_valid s ≡ true)
cost_estimate-snapshot prices key q e =
    let (p, seen, priced) = quote_guards prices key q e in
    (
      snapshot_at (normalize_price p) q,
      snapshot_of_quote prices key p _ seen (snapshot_priced p q priced),
      refl,
      snapshot-fits p q priced,
    )
