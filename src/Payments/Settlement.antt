-- ===== src/Payments/Settlement.antt =====
-- service/paymentservice/webhook_processor.go: `applyProviderPayment`, the one place where a payment
-- turns into credits.
pub mod Verified
use Prim.Native.String.{◌++◌}
use vk_agregator.Base.{String, Bool, true, false, not, ◌&&◌, ◌||◌, Uuid, if◌then◌else◌}
use vk_agregator.Base.Eq.{◌==◌, uuid_key, text_key}
use vk_agregator.Base.Int.{int_beq}
use vk_agregator.Base.Action.{
  Action, webhook_unverified, webhook_mismatch, pure, raise_if, ◌>>=◌, ◌>>◌,
}
use vk_agregator.Domain.Payment.{
  IntentStatus, intent_status_beq, intent_can_transition_to, PaymentIntent, ProviderPayment,
}
use vk_agregator.Billing.Service.{Service, grant_with_owner}
use vk_agregator.Payments.Repo.{update_intent_status}
use vk_agregator.Payments.Books.{
  Books, Call, on_payments, on_ledger, intent_owner_id, top_up_ledger_key,
}
use vk_agregator.Payments.Provider.{is_succeeded}

-- `applyResult`
pub record ApplyResult : Type 0 where
  pub status_changed : Bool
  pub topup_granted : Bool
  pub from : IntentStatus
  pub to : IntentStatus

abbrev pub nothing_applied : ApplyResult
nothing_applied = record {
  status_changed = false;
  topup_granted = false;
  from = IntentStatus.unset;
  to = IntentStatus.unset;
}

abbrev pub status_moves : PaymentIntent → IntentStatus → Bool
status_moves intent target = not (intent_status_beq intent.status target)

-- The provider says that the money has been taken, and how much.
abbrev pub same_money : PaymentIntent → ProviderPayment → Bool
same_money intent payment =
    int_beq payment.amount intent.amount && payment.currency == intent.currency

unfoldable pub move_status : Call → PaymentIntent → IntentStatus → Action Books ApplyResult
move_status c intent target =
    if status_moves intent target
    then (do
      on_payments (update_intent_status c.stored intent.id intent.status target)
      pure (record {
        status_changed = true;
        topup_granted = false;
        from = intent.status;
        to = target;
      }))
    else pure nothing_applied

module _ (uuid_string : Uuid → String) (billing : Service) where
  unfoldable pub grant_top_up : Call → PaymentIntent → Action Books (Unit {0})
  grant_top_up c intent = on_ledger (
      grant_with_owner uuid_string billing c.account c.entry intent.user_id (intent_owner_id intent)
        intent.credits (top_up_ledger_key intent.provider intent.provider_payment_id)
        ("payment top-up via " ++ intent.provider))

  unfoldable pub apply_provider_payment :
      Call → PaymentIntent → ProviderPayment → Action Books ApplyResult
  unfolding move_status grant_top_up
  apply_provider_payment c intent payment =
      if not (
        intent_status_beq intent.status payment.status
        || intent_can_transition_to intent.status payment.status)
      then pure nothing_applied
      else do
        raise_if (is_succeeded payment.status && not (payment.paid && payment.captured))
            webhook_unverified
        raise_if (is_succeeded payment.status && not (same_money intent payment)) webhook_mismatch
        result ← move_status c intent payment.status
        if is_succeeded payment.status
            then (do
              grant_top_up c intent
              pure (record result { topup_granted = result.status_changed }))
            else pure result
