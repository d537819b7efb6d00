-- ===== src/Payments/Links.antt =====
-- The reads of the payment service (service/paymentservice), which change nothing.
use mathlib.Core.Path.{subst}
use vk_agregator.Base.{
  ◌≡◌, refl, ap, sym, not, ℕ, zero, suc, ◌+◌, ltb, nat_beq, String, Uuid, arith,
}
use vk_agregator.Base.Int.{ℤ}
use vk_agregator.Base.Action.{Action, webhook_unsupported, webhook_unverified, refund_not_allowed}
use vk_agregator.Base.Eq.{text_key, uuid_key}
use vk_agregator.Base.Lists.{length}
use vk_agregator.Base.Preserves.{
  Preserves, chain-Preserves, if-Preserves, pure-Preserves, raise-Preserves, of_result-Preserves,
  try-Preserves, option-Preserves, result-Preserves,
}
use vk_agregator.Domain.Payment.{PaymentIntent, PaymentEvent}
use vk_agregator.Billing.Repo.{BillingRepo, get_account_by_user, list_entries}
use vk_agregator.Payments.Repo.{PaymentRepo, get_intent_by_id, get_intent_by_provider_payment_id}
use vk_agregator.Payments.Repo.Events.{get_event_by_id}
use vk_agregator.Payments.Repo.Refunds.{get_refund_by_idempotency_key}
use vk_agregator.Payments.Books.{Books, Call, on_payments, on_ledger, top_up_ledger_key}
use vk_agregator.Payments.Provider.{
  verified_provider_payment, verified_provider_payment_for_event, mock_provider_payment_from_event,
  mock_payment_status_from_event,
}
use vk_agregator.Payments.Scan.{
  scan_page, page_limit, refund_ledger_scan_page_size, refund_ledger_scan_max_entries, scan_pages,
  scan_fuel, out_of_fuel, ensure_topup_credits_refundable,
}

-- A read of either repository.
pub reads :
    {P : Books → Type 0} {A : Type 0} (m : Action PaymentRepo A)
    → ((r : PaymentRepo) → (m r).1 ≡ r)
    → Preserves P (on_payments m)
reads {P} m same = record {
  kept = λ b p. subst P (ap (λ r. record b { payments = r }) (sym (same b.payments))) p;
}

pub reads_ledger :
    {P : Books → Type 0} {A : Type 0} (m : Action BillingRepo A)
    → ((r : BillingRepo) → (m r).1 ≡ r)
    → Preserves P (on_ledger m)
reads_ledger {P} m same = record {
  kept = λ b p. subst P (ap (λ r. record b { billing = r }) (sym (same b.billing))) p;
}

module _ {P : Books → Type 0} where
  pub reads_intent : (id : Uuid) → Preserves P (on_payments (get_intent_by_id id))
  reads_intent id = reads (get_intent_by_id id) (λ r. unfold get_intent_by_id in ground arith)

  pub reads_provider_intent :
      (provider name : String)
      → Preserves P (on_payments (get_intent_by_provider_payment_id provider name))
  reads_provider_intent provider name =
      reads (get_intent_by_provider_payment_id provider name)
        (λ r. unfold get_intent_by_provider_payment_id in ground arith)

  pub reads_event : (id : Uuid) → Preserves P (on_payments (get_event_by_id id))
  reads_event id = reads (get_event_by_id id) (λ r. unfold get_event_by_id in ground arith)

  pub reads_refund : (key : String) → Preserves P (on_payments (get_refund_by_idempotency_key key))
  reads_refund key =
      reads (get_refund_by_idempotency_key key)
        (λ r. unfold get_refund_by_idempotency_key in ground arith)

  pub reads_account :
      (uuid_string : Uuid → String) (user : Uuid) (currency : String)
      → Preserves P (on_ledger (get_account_by_user uuid_string user currency))
  reads_account uuid_string user currency =
      reads_ledger (get_account_by_user uuid_string user currency)
        (λ r. unfold get_account_by_user in ground arith)

  pub verified-Preserves :
      (c : Call) (name : String) → Preserves P (verified_provider_payment c name)
  unfolding verified_provider_payment
  verified-Preserves c name = record { kept = λ b p. ground (arith, p) }

  pub mock-Preserves : (event : PaymentEvent) → Preserves P (mock_provider_payment_from_event event)
  unfolding mock_provider_payment_from_event
  mock-Preserves event =
      option-Preserves (mock_payment_status_from_event event.event_type)
        (raise-Preserves webhook_unsupported)
        (λ target.
          chain-Preserves (reads_provider_intent event.provider event.provider_payment_id)
            (λ intent. of_result-Preserves _))

  pub verified_for_event-Preserves :
      (c : Call) (event : PaymentEvent) → Preserves P (verified_provider_payment_for_event c event)
  unfolding verified_provider_payment_for_event
  verified_for_event-Preserves c event =
      result-Preserves (c.provider.get_payment event.provider_payment_id)
        (λ payment. of_result-Preserves _)
        (λ e.
          if-Preserves
            (λ _. chain-Preserves (try-Preserves (mock-Preserves event)) (λ fallback.
              result-Preserves fallback pure-Preserves (λ _. raise-Preserves webhook_unverified)))
            (λ _. raise-Preserves webhook_unverified))

pub list_entries-Preserves :
    {Q : BillingRepo → Type 0} (account : Uuid) (limit offset : ℕ)
    → Preserves Q (list_entries account limit offset)
unfolding list_entries
list_entries-Preserves account limit offset = record { kept = λ r q. q }

pub pages-Preserves :
    {Q : BillingRepo → Type 0} (fuel : ℕ) (account : Uuid) (key : String) (credits : ℤ)
    (offset scanned : ℕ)
    → Preserves Q (scan_pages fuel account key credits offset scanned)
pages-Preserves zero account key credits offset scanned = raise-Preserves out_of_fuel
pages-Preserves (suc fuel) account key credits offset scanned =
    if-Preserves {test = not (ltb scanned refund_ledger_scan_max_entries)}
      (λ _. raise-Preserves refund_not_allowed)
      (λ _. chain-Preserves (list_entries-Preserves account (page_limit scanned) offset) (λ entries.
        if-Preserves {test = nat_beq (length entries) 0} (λ _. raise-Preserves refund_not_allowed)
          (λ _.
            option-Preserves (scan_page key credits entries)
              (if-Preserves {test = ltb (length entries) (page_limit scanned)}
                (λ _. raise-Preserves refund_not_allowed)
                (λ _.
                  pages-Preserves fuel account key credits (offset + refund_ledger_scan_page_size)
                    (scanned + length entries)))
              of_result-Preserves)))

pub topup-Preserves :
    {Q : BillingRepo → Type 0} (account : Uuid) (intent : PaymentIntent)
    → Preserves Q (ensure_topup_credits_refundable account intent)
unfolding ensure_topup_credits_refundable
topup-Preserves account intent =
    if-Preserves (λ _. raise-Preserves refund_not_allowed)
      (λ _.
        pages-Preserves scan_fuel account
          (top_up_ledger_key intent.provider intent.provider_payment_id) intent.credits 0 0)

pub reads_topup :
    {P : Books → Type 0} (account : Uuid) (intent : PaymentIntent)
    → Preserves P (on_ledger (ensure_topup_credits_refundable account intent))
reads_topup account intent =
    reads_ledger (ensure_topup_credits_refundable account intent)
      (λ r. (topup-Preserves {Q = λ t. t ≡ r} account intent).kept r refl)

pub ruleset reading = (
  reads_intent, reads_provider_intent, reads_event, reads_refund, reads_account, verified-Preserves,
  verified_for_event-Preserves,
)
