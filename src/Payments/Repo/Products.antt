-- ===== src/Payments/Repo/Products.antt =====
-- adapter/storage/memory/payment.go: the methods on the products of the catalog.
use vk_agregator.Base.{String, not, Uuid, nat_beq, if◌then◌else◌}
use vk_agregator.Base.Text.{trim_space}
use vk_agregator.Base.Eq.{◌==◌, uuid_key, text_key}
use vk_agregator.Base.Int.{pos, int_beq}
use vk_agregator.Base.Dict.{lookup, insert, remove, contains}
use vk_agregator.Base.Action.{
  Action, not_found, conflict, pure, or_raise, gets, modify, raise_if, ◌>>=◌, ◌>>◌,
}
use vk_agregator.Domain.Billing.{Time}
use vk_agregator.Domain.Payment.{currency_rub, PaymentProduct}
use vk_agregator.Billing.{or_uuid}
use vk_agregator.Payments.Repo.{PaymentRepo, or_text, taken_by_another}

-- `PutProduct` and `CreateProduct` fill in the same defaults.
abbrev pub product_row : Uuid → Time → PaymentProduct → PaymentProduct
product_row id created_at product = record product {
  id = or_uuid product.id id;
  code = trim_space product.code;
  title = trim_space product.title;
  currency = or_text product.currency currency_rub;
  price_version = if int_beq product.price_version (pos 0) then pos 1 else product.price_version;
  created_at = created_at;
}

abbrev pub store_product : PaymentProduct → PaymentRepo → PaymentRepo
store_product product r = record r {
  products_by_id = insert product.id product r.products_by_id;
  product_id_by_code = insert product.code product.id r.product_id_by_code;
}

unfoldable pub put_product : Uuid → Time → PaymentProduct → Action PaymentRepo PaymentProduct
put_product id now product = do
  let created_at = if nat_beq product.created_at 0 then now else product.created_at
  let row = record (product_row id created_at product) { updated_at = now }
  modify (store_product row)
  pure row

unfoldable pub get_active_product_by_code : String → Action PaymentRepo PaymentProduct
get_active_product_by_code code = do
  id ← or_raise (← gets λ r. lookup (trim_space code) r.product_id_by_code) not_found
  product ← or_raise (← gets λ r. lookup id r.products_by_id) not_found
  raise_if (not product.is_active) not_found
  pure product

unfoldable pub get_product_by_id : Uuid → Action PaymentRepo PaymentProduct
get_product_by_id id = do or_raise (← gets λ r. lookup id r.products_by_id) not_found

unfoldable pub create_product : Uuid → Time → PaymentProduct → Action PaymentRepo PaymentProduct
create_product id now product = do
  raise_if (← gets λ r. contains (trim_space product.code) r.product_id_by_code) conflict
  let row = record (product_row id now product) { updated_at = now }
  modify (store_product row)
  pure row

unfoldable pub update_product : Time → PaymentProduct → Action PaymentRepo PaymentProduct
update_product now product = do
  existing ← or_raise (← gets λ r. lookup product.id r.products_by_id) not_found
  let code = or_text (trim_space product.code) existing.code
  raise_if (← gets λ r. taken_by_another code product.id r.product_id_by_code) conflict
  let row = record product {
    code = code;
    title = trim_space product.title;
    currency = or_text product.currency currency_rub;
    created_at = existing.created_at;
    updated_at = now;
  }
  modify λ r.
      if existing.code == code
      then r
      else record r { product_id_by_code = remove existing.code r.product_id_by_code }
  modify (store_product row)
  pure row
