-- ===== src/Pricing/Catalog/Quotes.antt =====
-- A catalog that is built (service/pricingcatalog/catalog.go) quotes its entries.
use mathlib.Core.List.{Memᴰ}
use vk_agregator.Base.{
  Bool-cases, String, true, false, ◌≡◌, inl, inr, refl, sym, ap, ◌∙◌, some, List, [], ◌∷◌, arith,
}
use vk_agregator.Base.Eq.{◌==◌, text_key}
use vk_agregator.Base.Int.{ℤ}
use vk_agregator.Base.Text.{trim_space, trim_space-again, is_space}
use vk_agregator.Base.Dict.{lookup, insert, contains, lookup-insert, lookup-insert_self}
use vk_agregator.Base.Action.{ok, Result-cases}
use vk_agregator.Pricing.{
  ProductKey, ProductPrice, normalize_key, normalize_price, key_valid, validate_product_price,
  internal_credits, or_static,
}
use vk_agregator.Pricing.Catalog.{
  Prices, product_key, index_price, index_prices, new_catalog, look_up, cost_estimate_credits,
}

pub normalize_key-again : (k : ProductKey) → normalize_key (normalize_key k) ≡ normalize_key k
unfolding normalize_key
normalize_key-again k = ground (
  arith,
  trim_space-again k.image_model_id,
  trim_space-again k.video_route_alias,
  trim_space-again k.quality,
  trim_space-again k.resolution,
)

or_static-again :
    (s : String) → or_static (trim_space (or_static (trim_space s))) ≡ or_static (trim_space s)
or_static-again s = elim (Bool-cases (trim_space s == "")) [
  | inl blank ↦ rw blank (unfold trim_space in unfold is_space in refl)
  | inr named ↦ rw named (rw (trim_space-again s) (rw named refl))
]

pub normalize_price-again :
    (p : ProductPrice) → normalize_price (normalize_price p) ≡ normalize_price p
unfolding normalize_price
normalize_price-again p = ground (arith, normalize_key-again p.key, or_static-again p.source)

pub internal_credits-normalize :
    (p : ProductPrice) → internal_credits (normalize_price p) ≡ internal_credits p
unfolding internal_credits
internal_credits-normalize p = rw (normalize_price-again p) refl

-- What an entry is that the index takes.
pub index_price_ok :
    (p : ProductPrice) (index index' : Prices)
    → index_price p index ≡ ok index'
    → (validate_product_price p ≡ ok tt)
      × ((q : ℤ) × (internal_credits p ≡ ok q))
      × (contains p.key index ≡ false)
      × (index' ≡ insert p.key p index)
unfolding index_price
index_price_ok p index index' e = elim (Result-cases (internal_credits p)) [
  | inl (q, priced) ↦ (ground arith, (q, priced), ground arith, ground arith)
  | inr (x, failed) ↦ absurd (ground arith)
]

-- The index goes on from one state to the next.
index_prices_cons :
    (p : ProductPrice) (ps : List ProductPrice) (index built : Prices)
    → index_prices (p ∷ ps) index ≡ ok built
    → (index' : Prices) × (index_price (normalize_price p) index ≡ ok index')
      × (index_prices ps index' ≡ ok built)
unfolding index_prices
index_prices_cons p ps index built e = elim (Result-cases (index_price (normalize_price p) index)) [
  | inl (index', taken) ↦ (index', taken, ground arith)
  | inr (x, refused) ↦ absurd (ground arith)
]

-- What is in the index stays in it.
index_price-keeps :
    (p q : ProductPrice) (key : ProductKey) (index index' : Prices)
    → index_price p index ≡ ok index'
    → lookup key index ≡ some q
    → lookup key index' ≡ some q
index_price-keeps p q key index index' e found =
    let (valid, priced, fresh, moved) = index_price_ok p index index' e in
    rw moved (ground (arith, lookup-insert p.key key p index, product_key.same_iff p.key key))

index_prices-keeps :
    (ps : List ProductPrice) (q : ProductPrice) (key : ProductKey) (index built : Prices)
    → index_prices ps index ≡ ok built
    → lookup key index ≡ some q
    → lookup key built ≡ some q
index_prices-keeps [] q key index built e found = unfold index_prices in ground arith
index_prices-keeps (p ∷ ps) q key index built e found =
    let (index', taken, rest) = index_prices_cons p ps index built e in
    index_prices-keeps ps q key index' built rest
      (index_price-keeps (normalize_price p) q key index index' taken found)

-- Every price of the list is found, and has an amount.
pub index_prices-holds :
    (ps : List ProductPrice) (p : ProductPrice) (index built : Prices)
    → Memᴰ p ps
    → index_prices ps index ≡ ok built
    → (lookup (normalize_price p).key built ≡ some (normalize_price p))
      × (validate_product_price (normalize_price p) ≡ ok tt)
      × ((q : ℤ) × (internal_credits (normalize_price p) ≡ ok q))
index_prices-holds [] p index built inside e = elim inside [ ]
index_prices-holds (x ∷ ps) p index built (Memᴰ.head same) e =
    let (index', taken, rest) = index_prices_cons x ps index built e in
    let (valid, priced, fresh, moved) = index_price_ok (normalize_price x) index index' taken in
    rw same (
      index_prices-keeps ps (normalize_price x) (normalize_price x).key index' built rest (
          ap (λ m. lookup (normalize_price x).key m) moved
          ∙ lookup-insert_self (normalize_price x).key (normalize_price x) index),
      valid,
      priced,
    )
index_prices-holds (x ∷ ps) p index built (Memᴰ.tail more) e =
    let (index', taken, rest) = index_prices_cons x ps index built e in
    index_prices-holds ps p index' built more rest

validated_key : (p : ProductPrice) → validate_product_price p ≡ ok tt → key_valid p.key ≡ true
unfolding validate_product_price
validated_key p valid = ground arith

-- The look-up of a normalized key that is there.
look_up_found :
    (prices : Prices) (key : ProductKey) (p : ProductPrice)
    → key_valid (normalize_key key) ≡ true
    → lookup (normalize_key key) prices ≡ some p
    → validate_product_price p ≡ ok tt
    → look_up prices key ≡ ok p
unfolding look_up
look_up_found prices key p valid found sound = ground arith

quoted :
    (prices : Prices) (key : ProductKey) (p : ProductPrice) (q : ℤ)
    → look_up prices key ≡ ok p
    → internal_credits p ≡ ok q
    → cost_estimate_credits prices key ≡ ok q
unfolding cost_estimate_credits
quoted prices key p q seen priced = ground arith

-- A catalog that is built answers for every entry of its list: under any spelling of the entry's
-- key, up to spaces around its texts, it quotes that entry's own exact price, which exists. So no
-- entry hides another, and none is priced by the entry of another key.
pub new_catalog-quotes :
    (ps : List ProductPrice) (p : ProductPrice) (built : Prices) (key : ProductKey)
    → new_catalog ps ≡ ok built
    → Memᴰ p ps
    → normalize_key key ≡ normalize_key p.key
    → (q : ℤ) × (cost_estimate_credits built key ≡ ok q) × (internal_credits p ≡ ok q)
unfolding new_catalog normalize_price
new_catalog-quotes ps p built key e inside same =
    let (found, valid, (q, priced)) = index_prices-holds ps p [] built inside e in
    let seen =
      look_up_found built key (normalize_price p)
        (rw same (validated_key (normalize_price p) valid)) (rw same found) valid in
    (q, quoted built key _ q seen priced, sym (internal_credits-normalize p) ∙ priced)
