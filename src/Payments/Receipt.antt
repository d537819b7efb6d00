-- ===== src/Payments/Receipt.antt =====
-- service/paymentservice/service.go: what a payment says on its receipt.
use vk_agregator.Base.{String, Option, none, some, if◌then◌else◌}
use vk_agregator.Base.Eq.{◌==◌, text_key}
use vk_agregator.Base.Int.{ℤ}
use vk_agregator.Base.Text.{trim_space}
use vk_agregator.Domain.Payment.{PaymentProduct, PaymentIntent}

-- `defaultString`
unfoldable pub default_string : String → String → String
default_string value fallback = if trim_space value == "" then fallback else trim_space value

-- A text as it stands, or another where it is blank.
abbrev or_if_blank : String → String → String
or_if_blank a b = if trim_space a == "" then b else a

abbrev or_none : {A : Type 0} → Option A → Option A → Option A
or_none none b = b
or_none (some a) b = some a

unfoldable pub payment_description : Option PaymentProduct → String
payment_description none = "NeiroHub balance top-up"
payment_description (some product) = or_if_blank product.title "NeiroHub balance top-up"

unfoldable pub payment_intent_description : PaymentIntent → Option PaymentProduct → String
unfolding payment_description
payment_intent_description intent product =
    or_if_blank intent.receipt_description (payment_description product)

unfoldable pub payment_intent_vat_code : PaymentIntent → Option PaymentProduct → Option ℤ
payment_intent_vat_code intent none = intent.vat_code
payment_intent_vat_code intent (some product) = or_none intent.vat_code product.vat_code

unfoldable pub payment_intent_subject : PaymentIntent → Option PaymentProduct → String
payment_intent_subject intent none = or_if_blank intent.payment_subject ""
payment_intent_subject intent (some product) =
    or_if_blank intent.payment_subject product.payment_subject

unfoldable pub payment_intent_mode : PaymentIntent → Option PaymentProduct → String
payment_intent_mode intent none = or_if_blank intent.payment_mode ""
payment_intent_mode intent (some product) = or_if_blank intent.payment_mode product.payment_mode
