-- ===== src/Payments/Provider.antt =====
-- service/paymentservice/webhook_processor.go: what the payment provider says of a payment, before it
-- is believed.
use Prim.Native.String.{◌++◌}
use vk_agregator.Base.{
  String, Bool, true, false, not, ◌&&◌, ◌||◌, Option, none, some, if◌then◌else◌,
}
use vk_agregator.Base.Text.{trim_space, to_lower, has_prefix}
use vk_agregator.Base.Eq.{◌==◌, uuid_key, text_key}
use vk_agregator.Base.Action.{
  Action, Result, ok, err, webhook_unverified, webhook_mismatch, webhook_unsupported, is_not_found,
  pure, raise, of_result, try, ◌>>=◌,
}
use vk_agregator.Domain.Payment.{
  provider_mock, IntentStatus, intent_status_beq, intent_status_valid, PaymentIntent, PaymentEvent,
  ProviderPayment,
}
use vk_agregator.Payments.Repo.{get_intent_by_provider_payment_id}
use vk_agregator.Payments.Books.{Books, Call, on_payments}

unfoldable pub validate_provider_payment : String → ProviderPayment → Result ProviderPayment
validate_provider_payment provider_payment_id payment =
    if not (trim_space payment.provider_payment_id == trim_space provider_payment_id)
    then err webhook_mismatch
    else if intent_status_beq payment.status IntentStatus.unset
        || not (intent_status_valid payment.status)
    then err webhook_mismatch
    else ok payment

unfoldable pub verified_provider_payment : Call → String → Action Books ProviderPayment
unfolding validate_provider_payment
verified_provider_payment c provider_payment_id =
    elim (c.provider.get_payment provider_payment_id) [
      | ok payment ↦ of_result (validate_provider_payment provider_payment_id payment)
      | err e ↦ raise webhook_unverified
    ]

-- `normalized == name || strings.HasPrefix(normalized, name + ".")`
abbrev is_named : String → String → Bool
is_named normalized name = normalized == name || has_prefix normalized (name ++ ".")

unfoldable pub mock_payment_status_from_event : String → Option IntentStatus
mock_payment_status_from_event event_type =
    let normalized = to_lower (trim_space event_type) in
    if is_named normalized "payment.succeeded"
    then some IntentStatus.succeeded
    else if is_named normalized "payment.canceled"
    then some IntentStatus.canceled
    else if is_named normalized "payment.expired"
    then some IntentStatus.expired
    else if is_named normalized "payment.failed"
    then some IntentStatus.failed
    else none

abbrev pub is_succeeded : IntentStatus → Bool
is_succeeded IntentStatus.succeeded = true
is_succeeded _ = false

-- The payment that a mock event announces for an intent.
abbrev mock_payment : PaymentEvent → PaymentIntent → IntentStatus → ProviderPayment
mock_payment event intent target = record {
  provider_payment_id = intent.provider_payment_id;
  status = target;
  amount = intent.amount;
  currency = intent.currency;
  paid = is_succeeded target;
  captured = is_succeeded target;
  refundable = is_succeeded target;
  raw = event.payload;
}

unfoldable pub mock_provider_payment_from_event : PaymentEvent → Action Books ProviderPayment
unfolding mock_payment_status_from_event validate_provider_payment
mock_provider_payment_from_event event = elim (mock_payment_status_from_event event.event_type) [
  | none ↦ raise webhook_unsupported
  | some target ↦ do
    intent ←
        on_payments (get_intent_by_provider_payment_id event.provider event.provider_payment_id)
    of_result
        (validate_provider_payment event.provider_payment_id (mock_payment event intent target))
]

-- The mock provider forgets its payments when the process restarts; then its events stand in.
unfoldable pub verified_provider_payment_for_event :
    Call → PaymentEvent → Action Books ProviderPayment
unfolding validate_provider_payment mock_provider_payment_from_event
verified_provider_payment_for_event c event =
    elim (c.provider.get_payment event.provider_payment_id) [
      | ok payment ↦ of_result (validate_provider_payment event.provider_payment_id payment)
      | err e ↦
          if c.provider.code == provider_mock && is_not_found e
          then (do
            fallback ← try (mock_provider_payment_from_event event)
            elim fallback [ ok payment ↦ pure payment | err _ ↦ raise webhook_unverified ])
          else raise webhook_unverified
    ]
