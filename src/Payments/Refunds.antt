-- ===== src/Payments/Refunds.antt =====
-- service/paymentservice/webhook_processor.go: a full refund. The credits are taken back first, then
-- the provider is asked for the money; where it does not give it, the credits come back.
pub mod Spent
pub mod Once
use Prim.Native.String.{◌++◌}
use vk_agregator.Base.{
  ℕ, zero, suc, ◌+◌, ◌-◌, String, Bool, true, false, not, ◌&&◌, ◌||◌, Option, none, some, List, [],
  ◌∷◌, Uuid, nil_uuid, ltb, nat_beq, if◌then◌else◌,
}
use vk_agregator.Base.Lists.{length}
use vk_agregator.Base.Text.{trim_space}
use vk_agregator.Base.Eq.{◌==◌, uuid_key, text_key}
use vk_agregator.Base.Int.{ℤ, pos, leb_ℤ, ltb_ℤ, int_beq}
use vk_agregator.Base.Int64.{neg64}
use vk_agregator.Base.Action.{
  Action, Result, ok, err, Error, conflict, invalid_input, forbidden, refund_not_allowed,
  refund_credits_spent, refund_mismatch, other, is_not_found, pure, raise, raise_if, try, ◌>>=◌,
  ◌>>◌,
}
use vk_agregator.Domain.Billing.{
  currency_credits, LedgerEntryType, LedgerEntryStatus, CreditAccount, LedgerEntry,
}
use vk_agregator.Domain.Payment.{
  IntentStatus, intent_status_beq, RefundStatus, refund_status_beq, refund_status_valid,
  PaymentIntent, PaymentRefund, CreateRefundInput, RefundResult,
}
use vk_agregator.Billing.Repo.{BillingRepo, append_entry, get_account_by_user, list_entries}
use vk_agregator.Billing.Service.{forgive_conflict}
use vk_agregator.Payments.Repo.{get_intent_by_id, update_intent_status}
use vk_agregator.Payments.Repo.Refunds.{
  create_refund, get_refund_by_idempotency_key, set_refund_provider_state,
}
use vk_agregator.Payments.Books.{
  Books, Call, on_payments, on_ledger, run_payment_tx, intent_owner_id, top_up_ledger_key,
  refund_debit_ledger_key, refund_compensate_ledger_key,
}
use vk_agregator.Payments.Scan.{ensure_topup_credits_refundable}
use vk_agregator.Payments.Receipt.{
  default_string, payment_intent_description, payment_intent_vat_code, payment_intent_subject,
  payment_intent_mode,
}

pub record RefundIntentInput : Type 0 where
  pub intent_id : Uuid
  pub idempotency_key : String
  pub reason : String

pub record RefundIntentResult : Type 0 where
  pub intent : PaymentIntent
  pub refund : PaymentRefund

abbrev pub wanted_refund : PaymentIntent → RefundIntentInput → PaymentRefund
wanted_refund intent i = record {
  id = nil_uuid;
  intent_id = intent.id;
  provider_refund_id = "";
  amount = intent.amount;
  status = RefundStatus.provider_pending;
  idempotency_key = i.idempotency_key;
  reason = default_string i.reason "manual payment refund";
  created_at = 0;
  updated_at = 0;
}

unfoldable pub refund_requires_provider_resume : RefundStatus → Bool
refund_requires_provider_resume status =
    refund_status_beq status RefundStatus.created
    || refund_status_beq status RefundStatus.provider_pending

abbrev pub or_failed : RefundStatus → RefundStatus
or_failed RefundStatus.unset = RefundStatus.failed
or_failed s = s

module _ (uuid_string : Uuid → String) where
  abbrev pub debit_entry : CreditAccount → PaymentIntent → PaymentRefund → LedgerEntry
  debit_entry a intent refund = record {
    id = nil_uuid;
    account_id = a.id;
    owner_account_id = nil_uuid;
    job_id = none;
    reservation_id = none;
    entry_type = LedgerEntryType.adjustment;
    amount = neg64 intent.credits;
    status = LedgerEntryStatus.committed;
    idempotency_key =
        refund_debit_ledger_key uuid_string intent.provider intent.provider_payment_id refund.id;
    reason = "payment refund debit";
    created_at = 0;
  }

  abbrev pub compensating_entry : CreditAccount → PaymentIntent → PaymentRefund → LedgerEntry
  compensating_entry a intent refund = record {
    id = nil_uuid;
    account_id = a.id;
    owner_account_id = intent_owner_id intent;
    job_id = none;
    reservation_id = none;
    entry_type = LedgerEntryType.adjustment;
    amount = intent.credits;
    status = LedgerEntryStatus.committed;
    idempotency_key = refund_compensate_ledger_key uuid_string refund.id;
    reason = "payment refund provider failure compensation";
    created_at = 0;
  }

  -- What the transaction of `ensureRefundIntentRecord` does.
  unfoldable pub open_refund : Call → RefundIntentInput → Action Books PaymentRefund
  unfolding ensure_topup_credits_refundable
  open_refund c i = do
    intent ← on_payments (get_intent_by_id i.intent_id)
    raise_if (not (intent_status_beq intent.status IntentStatus.succeeded)) refund_not_allowed
    raise_if (trim_space intent.provider_payment_id == "") refund_not_allowed
    a ← on_ledger (get_account_by_user uuid_string (intent_owner_id intent) currency_credits)
    raise_if (ltb_ℤ a.balance_cached intent.credits) refund_credits_spent
    on_ledger (ensure_topup_credits_refundable a.id intent)
    refund ← on_payments (create_refund c.id c.stored (wanted_refund intent i))
    on_ledger (append_entry c.entry (debit_entry a intent refund))
    pure refund

  unfoldable pub ensure_refund_intent_record : Call → RefundIntentInput → Action Books PaymentRefund
  unfolding open_refund
  ensure_refund_intent_record c i = do
    found ← try (on_payments (get_refund_by_idempotency_key i.idempotency_key))
    elim found [
      | ok existing ↦ do raise_if (not (existing.intent_id == i.intent_id)) forbidden; pure existing
      | err e ↦ if is_not_found e then run_payment_tx c (open_refund c i) else raise e
    ]

  -- What the transaction of `compensateRefundDebit` does.
  unfoldable pub give_back :
      Call → PaymentIntent → PaymentRefund → String → RefundStatus → Action Books (Unit {0})
  give_back c intent refund provider_refund_id status = do
    a ← on_ledger (get_account_by_user uuid_string (intent_owner_id intent) currency_credits)
    on_ledger (forgive_conflict (append_entry c.entry (compensating_entry a intent refund)))
    on_payments (set_refund_provider_state c.stored refund.id provider_refund_id (or_failed status))

  unfoldable pub compensate_refund_debit :
      Call → PaymentIntent → PaymentRefund → String → RefundStatus → Action Books (Unit {0})
  unfolding give_back
  compensate_refund_debit c intent refund provider_refund_id status =
      run_payment_tx c (give_back c intent refund provider_refund_id status)

  abbrev pub refund_request : PaymentIntent → PaymentRefund → String → CreateRefundInput
  refund_request intent refund reason = record {
    refund_id = refund.id;
    intent_id = intent.id;
    provider_payment_id = intent.provider_payment_id;
    amount = intent.amount;
    currency = intent.currency;
    description = payment_intent_description intent none;
    reason = reason;
    receipt_email = intent.receipt_email;
    receipt_phone = intent.receipt_phone;
    vat_code = payment_intent_vat_code intent none;
    payment_subject = payment_intent_subject intent none;
    payment_mode = payment_intent_mode intent none;
    idempotency_key = "payrefund:" ++ uuid_string refund.id;
  }

  -- The debit is compensated, and the error answered with; so it is where the compensation fails.
  unfoldable pub refund_failed :
      {A : Type 0}
      → Call
      → PaymentIntent
      → PaymentRefund
      → String
      → RefundStatus
      → Error
      → Action Books A
  unfolding compensate_refund_debit
  refund_failed c intent refund provider_refund_id status e = do
    try (compensate_refund_debit c intent refund provider_refund_id status)
    raise e

  -- What the last transaction of `submitProviderRefund` does.
  unfoldable pub accept_refund :
      Call → PaymentIntent → PaymentRefund → RefundResult → Action Books (Unit {0})
  accept_refund c intent refund answer = do
    on_payments
        (set_refund_provider_state c.stored refund.id answer.provider_refund_id answer.status)
    if refund_status_beq answer.status RefundStatus.succeeded
        then (do
          current ← on_payments (get_intent_by_id intent.id)
          if intent_status_beq current.status IntentStatus.succeeded
              then on_payments
                  (update_intent_status c.stored current.id current.status IntentStatus.refunded)
              else pure tt)
        else pure tt

  abbrev pub is_refused : RefundStatus → Bool
  is_refused status =
      refund_status_beq status RefundStatus.failed || refund_status_beq status RefundStatus.canceled

  -- What is made of the provider's answer to the request for a refund.
  unfoldable pub judge_refund :
      Call → PaymentIntent → PaymentRefund → RefundResult → Action Books RefundIntentResult
  unfolding refund_failed accept_refund
  judge_refund c intent refund answer =
      if not (int_beq answer.amount intent.amount && answer.currency == intent.currency)
      then refund_failed c intent refund answer.provider_refund_id RefundStatus.failed
          refund_mismatch
      else if not (refund_status_valid answer.status)
      then refund_failed c intent refund answer.provider_refund_id RefundStatus.failed
          refund_mismatch
      else if is_refused answer.status
      then refund_failed c intent refund answer.provider_refund_id answer.status refund_not_allowed
      else do
        run_payment_tx c (accept_refund c intent refund answer)
        updated_refund ← on_payments (get_refund_by_idempotency_key refund.idempotency_key)
        updated_intent ← on_payments (get_intent_by_id intent.id)
        pure (record { intent = updated_intent; refund = updated_refund })

  unfoldable pub submit_provider_refund :
      Call → PaymentIntent → PaymentRefund → String → Action Books RefundIntentResult
  unfolding refund_failed judge_refund
  submit_provider_refund c intent refund reason =
      elim (c.provider.create_refund (refund_request intent refund reason)) [
        | err e ↦ refund_failed c intent refund "" RefundStatus.failed e
        | ok answer ↦ judge_refund c intent refund answer
      ]

  abbrev pub trimmed_input : RefundIntentInput → RefundIntentInput
  trimmed_input i = record i {
    idempotency_key = trim_space i.idempotency_key;
    reason = trim_space i.reason;
  }

  -- `RefundIntent`: the first call is made around the local record, the second around the
  -- provider's refund.
  unfoldable pub refund_intent : Call → Call → RefundIntentInput → Action Books RefundIntentResult
  unfolding ensure_refund_intent_record submit_provider_refund
  refund_intent c c' given = do
    let i = trimmed_input given
    raise_if (i.intent_id == nil_uuid || i.idempotency_key == "") invalid_input
    refund ← ensure_refund_intent_record c i
    intent ← on_payments (get_intent_by_id refund.intent_id)
    if refund_requires_provider_resume refund.status
        then submit_provider_refund c' intent refund i.reason
        else pure (record { intent = intent; refund = refund })
