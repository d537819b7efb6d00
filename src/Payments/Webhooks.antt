-- ===== src/Payments/Webhooks.antt =====
-- service/paymentservice/webhook_processor.go: one stored webhook event, one intent. The result that
-- a call answers with is the one that the notifier is told of, which is best-effort and changes
-- nothing.
pub mod Trusted
pub mod Marked
pub mod Once
use vk_agregator.Base.{String, Bool, true, false, not, ◌||◌, Uuid, nil_uuid, if◌then◌else◌}
use vk_agregator.Base.Text.{trim_space, to_lower, has_prefix}
use vk_agregator.Base.Eq.{◌==◌, uuid_key, text_key}
use vk_agregator.Base.Action.{
  Action, ok, err, conflict, webhook_invalid, webhook_unverified, webhook_unsupported, pure, raise,
  raise_if, ◌>>=◌, ◌>>◌,
}
use vk_agregator.Domain.Payment.{IntentStatus, PaymentIntent, PaymentEvent, ProviderPayment}
use vk_agregator.Billing.Service.{Service}
use vk_agregator.Payments.Repo.{is_processed, get_intent_by_id, get_intent_by_provider_payment_id}
use vk_agregator.Payments.Repo.Events.{get_event_by_id, mark_event_processed}
use vk_agregator.Payments.Books.{Books, Call, on_payments, run_payment_tx}
use vk_agregator.Payments.Provider.{verified_provider_payment, verified_provider_payment_for_event}
use vk_agregator.Payments.Settlement.{ApplyResult, nothing_applied, apply_provider_payment}

abbrev pub is_refund_webhook_event : String → Bool
is_refund_webhook_event event_type = has_prefix (to_lower (trim_space event_type)) "refund."

unfoldable pub ack_inbox_event : Call → Uuid → Action Books (Unit {0})
ack_inbox_event c id = run_payment_tx c do
  current ← on_payments (get_event_by_id id)
  if is_processed current then pure tt else on_payments (mark_event_processed c.stored id c.clock)

-- The statuses in which there is nothing left to cancel, and those in which it is too late.
abbrev pub is_over : IntentStatus → Bool
is_over IntentStatus.canceled = true
is_over IntentStatus.expired = true
is_over IntentStatus.failed = true
is_over _ = false

abbrev pub is_paid : IntentStatus → Bool
is_paid IntentStatus.succeeded = true
is_paid IntentStatus.refunded = true
is_paid IntentStatus.partially_refunded = true
is_paid _ = false

module _ (uuid_string : Uuid → String) (billing : Service) where
  -- What the transaction of `ProcessEvent` does.
  unfoldable pub settle_event : Call → PaymentEvent → ProviderPayment → Action Books ApplyResult
  settle_event c event payment = do
    current ← on_payments (get_event_by_id event.id)
    if is_processed current then pure nothing_applied else do
      intent ←
          on_payments (get_intent_by_provider_payment_id event.provider event.provider_payment_id)
      result ← apply_provider_payment uuid_string billing c intent payment
      on_payments (mark_event_processed c.stored event.id c.clock)
      pure result

  unfoldable pub process_event : Call → PaymentEvent → Action Books ApplyResult
  unfolding ack_inbox_event settle_event verified_provider_payment_for_event
  process_event c event =
      if event.id == nil_uuid
      then raise webhook_invalid
      else if is_processed event
      then pure nothing_applied
      else if not (event.provider == c.provider.code)
      then raise webhook_invalid
      else if is_refund_webhook_event event.event_type || trim_space event.provider_payment_id == ""
      then (do ack_inbox_event c event.id; pure nothing_applied)
      else do
        payment ← verified_provider_payment_for_event c event
        run_payment_tx c (settle_event c event payment)

  -- What the transaction of `SyncIntent` does.
  unfoldable pub settle_intent : Call → Uuid → ProviderPayment → Action Books ApplyResult
  settle_intent c id payment = do
    current ← on_payments (get_intent_by_id id)
    apply_provider_payment uuid_string billing c current payment

  unfoldable pub sync_intent : Call → Uuid → Action Books PaymentIntent
  unfolding settle_intent verified_provider_payment
  sync_intent c id = do
    intent ← on_payments (get_intent_by_id id)
    raise_if (trim_space intent.provider_payment_id == "") webhook_unsupported
    payment ← verified_provider_payment c intent.provider_payment_id
    run_payment_tx c (settle_intent c id payment)
    on_payments (get_intent_by_id id)

  unfoldable pub cancel_intent : Call → Uuid → Action Books PaymentIntent
  unfolding sync_intent
  cancel_intent c id = do
    intent ← on_payments (get_intent_by_id id)
    if is_over intent.status then pure intent else do
      raise_if (is_paid intent.status) conflict
      raise_if (trim_space intent.provider_payment_id == "") webhook_unsupported
      elim (c.provider.cancel_payment intent.provider_payment_id) [
        | err e ↦ raise webhook_unverified
        | ok _ ↦ sync_intent c id
      ]
