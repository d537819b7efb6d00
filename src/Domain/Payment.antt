-- ===== src/Domain/Payment.antt =====
-- internal/domain/payment.go: top-up products, payment intents, refunds and webhook events, the
-- statuses of intents and refunds, and what a payment provider answers.
use text.Mathlib.Text.{◌==◌ as str_eq}
use vk_agregator.Base.{
  ℕ, String, Bool, true, false, Option, none, some, List, [], ◌∷◌, nat_beq, Uuid,
}
use vk_agregator.Base.Lists.{any}
use vk_agregator.Base.Int.{ℤ}
use vk_agregator.Base.Action.{Result}
use vk_agregator.Domain.Billing.{Currency, Time}

abbrev pub PaymentProviderCode : Type 0
PaymentProviderCode = String

abbrev pub provider_mock : PaymentProviderCode
provider_mock = "mock"

abbrev pub provider_yookassa : PaymentProviderCode
provider_yookassa = "yookassa"

abbrev pub currency_rub : Currency
currency_rub = "rub"

-- `PaymentIntentStatus`: `unset` is the empty text, and `other` a text that is none of these.
pub data IntentStatus : Type 0 where
  unset created provider_pending waiting_for_user succeeded : IntentStatus
  canceled expired failed refunded partially_refunded : IntentStatus
  other : String → IntentStatus

abbrev pub intent_tag : IntentStatus → ℕ
intent_tag IntentStatus.unset = 0
intent_tag IntentStatus.created = 1
intent_tag IntentStatus.provider_pending = 2
intent_tag IntentStatus.waiting_for_user = 3
intent_tag IntentStatus.succeeded = 4
intent_tag IntentStatus.canceled = 5
intent_tag IntentStatus.expired = 6
intent_tag IntentStatus.failed = 7
intent_tag IntentStatus.refunded = 8
intent_tag IntentStatus.partially_refunded = 9
intent_tag (IntentStatus.other s) = 10

-- Go's `==` on statuses, which are texts.
abbrev pub intent_status_beq : IntentStatus → IntentStatus → Bool
intent_status_beq (IntentStatus.other s) (IntentStatus.other t) = str_eq s t
intent_status_beq a b = nat_beq (intent_tag a) (intent_tag b)

-- `paymentIntentTransitions`, with `none` for a missing key.
unfoldable pub payment_intent_transitions : IntentStatus → Option (List IntentStatus)
payment_intent_transitions IntentStatus.created = some (
    IntentStatus.provider_pending ∷ IntentStatus.waiting_for_user ∷ IntentStatus.canceled
    ∷ IntentStatus.expired ∷ IntentStatus.failed ∷ [])
payment_intent_transitions IntentStatus.provider_pending = some (
    IntentStatus.waiting_for_user ∷ IntentStatus.succeeded ∷ IntentStatus.canceled
    ∷ IntentStatus.expired ∷ IntentStatus.failed ∷ [])
payment_intent_transitions IntentStatus.waiting_for_user = some (
    IntentStatus.provider_pending ∷ IntentStatus.succeeded ∷ IntentStatus.canceled
    ∷ IntentStatus.expired ∷ IntentStatus.failed ∷ [])
payment_intent_transitions IntentStatus.succeeded =
    some (IntentStatus.partially_refunded ∷ IntentStatus.refunded ∷ [])
payment_intent_transitions IntentStatus.canceled = some ([])
payment_intent_transitions IntentStatus.expired = some ([])
payment_intent_transitions IntentStatus.failed = some ([])
payment_intent_transitions IntentStatus.refunded = some ([])
payment_intent_transitions IntentStatus.partially_refunded =
    some (IntentStatus.partially_refunded ∷ IntentStatus.refunded ∷ [])
payment_intent_transitions _ = none

-- The list that Go's map gives, which is empty for a missing key.
abbrev intents_next : Option (List IntentStatus) → List IntentStatus
intents_next none = []
intents_next (some next) = next

-- `PaymentIntentStatus.Valid`
unfoldable pub intent_status_valid : IntentStatus → Bool
unfolding payment_intent_transitions
intent_status_valid s = elim (payment_intent_transitions s) [ none ↦ false | some next ↦ true ]

-- `PaymentIntentStatus.CanTransitionTo`
unfoldable pub intent_can_transition_to : IntentStatus → IntentStatus → Bool
unfolding payment_intent_transitions
intent_can_transition_to s target =
    any (λ allowed. intent_status_beq allowed target) (intents_next (payment_intent_transitions s))

abbrev leads_nowhere : Option (List IntentStatus) → Bool
leads_nowhere (some []) = true
leads_nowhere _ = false

-- `PaymentIntentStatus.IsTerminal`
unfoldable pub intent_status_is_terminal : IntentStatus → Bool
unfolding payment_intent_transitions
intent_status_is_terminal s = leads_nowhere (payment_intent_transitions s)

-- `PaymentRefundStatus`
pub data RefundStatus : Type 0 where
  unset created provider_pending succeeded failed canceled : RefundStatus
  other : String → RefundStatus

abbrev pub refund_tag : RefundStatus → ℕ
refund_tag RefundStatus.unset = 0
refund_tag RefundStatus.created = 1
refund_tag RefundStatus.provider_pending = 2
refund_tag RefundStatus.succeeded = 3
refund_tag RefundStatus.failed = 4
refund_tag RefundStatus.canceled = 5
refund_tag (RefundStatus.other s) = 6

abbrev pub refund_status_beq : RefundStatus → RefundStatus → Bool
refund_status_beq (RefundStatus.other s) (RefundStatus.other t) = str_eq s t
refund_status_beq a b = nat_beq (refund_tag a) (refund_tag b)

-- `PaymentRefundStatus.Valid`
unfoldable pub refund_status_valid : RefundStatus → Bool
refund_status_valid RefundStatus.created = true
refund_status_valid RefundStatus.provider_pending = true
refund_status_valid RefundStatus.succeeded = true
refund_status_valid RefundStatus.failed = true
refund_status_valid RefundStatus.canceled = true
refund_status_valid _ = false

pub record PaymentProduct : Type 0 where
  pub id : Uuid
  pub code : String
  pub title : String
  pub amount : ℤ
  pub currency : Currency
  pub credits : ℤ
  pub price_version : ℤ
  pub vat_code : Option ℤ
  pub payment_subject : String
  pub payment_mode : String
  pub is_active : Bool
  pub created_at : Time
  pub updated_at : Time

-- `metadata` is the text of a JSON document.
pub record PaymentIntent : Type 0 where
  pub id : Uuid
  pub user_id : Uuid
  pub account_id : Uuid
  pub product_id : Option Uuid
  pub status : IntentStatus
  pub amount : ℤ
  pub currency : Currency
  pub credits : ℤ
  pub price_version : ℤ
  pub receipt_description : String
  pub vat_code : Option ℤ
  pub payment_subject : String
  pub payment_mode : String
  pub provider : PaymentProviderCode
  pub provider_payment_id : String
  pub confirmation_url : String
  pub idempotency_key : String
  pub receipt_email : String
  pub receipt_phone : String
  pub metadata : String
  pub created_at : Time
  pub updated_at : Time
  pub expires_at : Option Time

pub record PaymentEvent : Type 0 where
  pub id : Uuid
  pub provider : PaymentProviderCode
  pub event_type : String
  pub provider_payment_id : String
  pub provider_refund_id : String
  pub dedup_key : String
  pub payload : String
  pub processed_at : Option Time
  pub received_at : Time
  pub updated_at : Time

pub record PaymentRefund : Type 0 where
  pub id : Uuid
  pub intent_id : Uuid
  pub provider_refund_id : String
  pub amount : ℤ
  pub status : RefundStatus
  pub idempotency_key : String
  pub reason : String
  pub created_at : Time
  pub updated_at : Time

pub record ProviderPayment : Type 0 where
  pub provider_payment_id : String
  pub status : IntentStatus
  pub amount : ℤ
  pub currency : Currency
  pub paid : Bool
  pub captured : Bool
  pub refundable : Bool
  pub raw : String

pub record CreateRefundInput : Type 0 where
  pub refund_id : Uuid
  pub intent_id : Uuid
  pub provider_payment_id : String
  pub amount : ℤ
  pub currency : Currency
  pub description : String
  pub reason : String
  pub receipt_email : String
  pub receipt_phone : String
  pub vat_code : Option ℤ
  pub payment_subject : String
  pub payment_mode : String
  pub idempotency_key : String

pub record RefundResult : Type 0 where
  pub provider_refund_id : String
  pub status : RefundStatus
  pub amount : ℤ
  pub currency : Currency
  pub raw : String

pub record WebhookEvent : Type 0 where
  pub provider : PaymentProviderCode
  pub event_type : String
  pub provider_payment_id : String
  pub provider_refund_id : String
  pub dedup_key : String
  pub payload : String

-- `PaymentProvider`: what the outside service answers at the time of a call. Each call of the
-- program takes its own, since the service may answer otherwise the next time.
pub record PaymentProvider : Type 0 where
  pub code : PaymentProviderCode
  pub get_payment : String → Result ProviderPayment
  pub cancel_payment : String → Result (Unit {0})
  pub create_refund : CreateRefundInput → Result RefundResult
  pub parse_webhook : String → Result WebhookEvent
