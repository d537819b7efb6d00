-- ===== src/Payments/Stable.antt =====
-- What no write of the payment processor breaks, no call of it breaks
-- (service/paymentservice/webhook_processor.go).
pub mod Refunding
use mathlib.Core.Path.{subst}
use vk_agregator.Base.{
  ◌≡◌, refl, ap, sym, Bool, true, false, not, ◌||◌, ℕ, zero, suc, ◌+◌, ltb, nat_beq, String, Option,
  none, some, Uuid, arith, Bool-cases,
}
use vk_agregator.Base.Int.{ℤ}
use vk_agregator.Base.Action.{
  Action, Result, ok, err, is_not_found, raise_if, webhook_unsupported, webhook_unverified,
  webhook_invalid, conflict, forbidden, refund_not_allowed, Error,
}
use vk_agregator.Base.Eq.{◌==◌, text_key, uuid_key}
use vk_agregator.Base.Text.{trim_space}
use vk_agregator.Base.Lists.{length}
use vk_agregator.Base.Preserves.{
  Preserves, chain-Preserves, then-Preserves, if-Preserves, pure-Preserves, raise-Preserves,
  raise_if-Preserves, of_result-Preserves, try-Preserves, option-Preserves, result-Preserves,
  gets-Preserves, or_raise-Preserves, preserving,
}
use vk_agregator.Tx.{run_in_tx-Preserves}
use vk_agregator.Domain.Billing.{Time, LedgerEntry}
use vk_agregator.Domain.Payment.{
  IntentStatus, intent_status_beq, intent_can_transition_to, RefundStatus, PaymentIntent,
  PaymentEvent, PaymentRefund, ProviderPayment, WebhookEvent, RefundResult,
}
use vk_agregator.Billing.{Draw}
use vk_agregator.Billing.Repo.{BillingRepo, append_entry, get_account_by_user, list_entries}
use vk_agregator.Billing.Service.{Service, grant_with_owner, forgive_conflict}
use vk_agregator.Payments.Repo.{
  PaymentRepo, update_intent_status, get_intent_by_id, get_intent_by_provider_payment_id,
}
use vk_agregator.Payments.Repo.Events.{create_event, mark_event_processed, get_event_by_id}
use vk_agregator.Payments.Repo.Refunds.{
  create_refund, set_refund_provider_state, get_refund_by_idempotency_key,
}
use vk_agregator.Payments.Books.{Books, Call, on_payments, on_ledger, top_up_ledger_key}
use vk_agregator.Payments.Provider.{
  is_succeeded, verified_provider_payment, verified_provider_payment_for_event,
  mock_provider_payment_from_event, mock_payment_status_from_event,
}
use vk_agregator.Payments.Settlement.{
  apply_provider_payment, move_status, grant_top_up, status_moves,
}
use vk_agregator.Payments.Webhooks.{
  is_paid, process_event, sync_intent, cancel_intent, settle_event, settle_intent, ack_inbox_event,
}
use vk_agregator.Payments.Inbox.{ingest_webhook, store_webhook}
use vk_agregator.Payments.Scan.{
  scan_page, page_limit, refund_ledger_scan_page_size, refund_ledger_scan_max_entries, scan_pages,
  scan_fuel, out_of_fuel, ensure_topup_credits_refundable,
}
use vk_agregator.Billing.Service.Idempotent.{forgive_conflict-state}
use vk_agregator.Payments.Refunds.{
  refund_intent, RefundIntentInput, open_refund, ensure_refund_intent_record, give_back,
  compensate_refund_debit, refund_failed, accept_refund, submit_provider_refund, judge_refund,
  refund_request,
}
use vk_agregator.Payments.Links.{
  reading, reads, reads_intent, reads_provider_intent, reads_refund, verified-Preserves,
  verified_for_event-Preserves, reads_topup,
}

moves_allowed :
    (intent : PaymentIntent) (target : IntentStatus)
    → not (intent_status_beq intent.status target || intent_can_transition_to intent.status target)
      ≡ false
    → status_moves intent target ≡ true
    → intent_can_transition_to intent.status target ≡ true
moves_allowed intent target may moves = ground arith

module _ (uuid_string : Uuid → String) (billing : Service) where
  -- A property of the books that no write of the processor breaks. A status moves only where the
  -- table of transitions allows it.
  pub record IsStable (P : Books → Type 0) : Type 0 where
    pub moves :
        (now : Time) (id : Uuid) (from to : IntentStatus)
        → intent_can_transition_to from to ≡ true
        → Preserves P (on_payments (update_intent_status now id from to))
    pub marks :
        (now : Time) (id : Uuid) (at : Time)
        → Preserves P (on_payments (mark_event_processed now id at))
    pub receives :
        (id : Uuid) (now : Time) (event : PaymentEvent)
        → Preserves P (on_payments (create_event id now event))
    pub opens :
        (id : Uuid) (now : Time) (refund : PaymentRefund)
        → Preserves P (on_payments (create_refund id now refund))
    pub answers :
        (now : Time) (id : Uuid) (name : String) (status : RefundStatus)
        → Preserves P (on_payments (set_refund_provider_state now id name status))
    pub grants :
        (d d' : Draw) (user account : Uuid) (amount : ℤ) (key reason : String)
        → Preserves P
            (on_ledger (grant_with_owner uuid_string billing d d' user account amount key reason))
    pub appends : (d : Draw) (e : LedgerEntry) → Preserves P (on_ledger (append_entry d e))

  module _ {P : Books → Type 0} (stable : IsStable P) where
    move_status-Preserves :
        (c : Call) (intent : PaymentIntent) (target : IntentStatus)
        → (status_moves intent target ≡ true → intent_can_transition_to intent.status target ≡ true)
        → Preserves P (move_status c intent target)
    unfolding move_status
    move_status-Preserves c intent target allowed =
        if-Preserves
          (λ moves.
            then-Preserves (stable.moves c.stored intent.id intent.status target (allowed moves))
              (pure-Preserves _))
          (λ _. pure-Preserves _)

    apply-Preserves :
        (c : Call) (intent : PaymentIntent) (payment : ProviderPayment)
        → Preserves P (apply_provider_payment uuid_string billing c intent payment)
    unfolding apply_provider_payment grant_top_up
    apply-Preserves c intent payment =
        search
          (
            preserving,
            stable.grants,
            move_status-Preserves c intent payment.status,
            moves_allowed intent payment.status,
          )
          depth 12

    settle_event-Preserves :
        (c : Call) (event : PaymentEvent) (payment : ProviderPayment)
        → Preserves P (settle_event uuid_string billing c event payment)
    unfolding settle_event
    settle_event-Preserves c event payment =
        search (preserving, reading, stable.marks, apply-Preserves) depth 12

    ack-Preserves : (c : Call) (id : Uuid) → Preserves P (ack_inbox_event c id)
    unfolding ack_inbox_event
    ack-Preserves c id =
        search (preserving, reading, stable.marks, run_in_tx-Preserves c.begin c.commit) depth 12

    pub process-Preserves :
        (c : Call) (event : PaymentEvent) → Preserves P (process_event uuid_string billing c event)
    unfolding process_event
    process-Preserves c event =
        search
          (
            preserving,
            reading,
            ack-Preserves,
            settle_event-Preserves,
            run_in_tx-Preserves c.begin c.commit,
          )
          depth 14

    settle_intent-Preserves :
        (c : Call) (id : Uuid) (payment : ProviderPayment)
        → Preserves P (settle_intent uuid_string billing c id payment)
    unfolding settle_intent
    settle_intent-Preserves c id payment = search (preserving, reading, apply-Preserves) depth 12

    pub sync-Preserves : (c : Call) (id : Uuid) → Preserves P (sync_intent uuid_string billing c id)
    unfolding sync_intent
    sync-Preserves c id =
        search (preserving, reading, settle_intent-Preserves, run_in_tx-Preserves c.begin c.commit)
          depth 14

    pub cancel-Preserves :
        (c : Call) (id : Uuid) → Preserves P (cancel_intent uuid_string billing c id)
    unfolding cancel_intent
    cancel-Preserves c id = chain-Preserves (reads_intent id) (λ intent.
        if-Preserves (λ _. pure-Preserves intent)
          (λ _. then-Preserves (raise_if-Preserves (is_paid intent.status) conflict) (
            then-Preserves
              (raise_if-Preserves (trim_space intent.provider_payment_id == "") webhook_unsupported)
              (result-Preserves (c.provider.cancel_payment intent.provider_payment_id)
                (λ _. sync-Preserves c id) (λ e. raise-Preserves webhook_unverified)))))

    store-Preserves :
        (c : Call) (raw : String) (w : WebhookEvent) → Preserves P (store_webhook c raw w)
    unfolding store_webhook
    store-Preserves c raw w = search (preserving, stable.receives) depth 12

    pub ingest-Preserves : (c : Call) (raw : String) → Preserves P (ingest_webhook c raw)
    unfolding ingest_webhook
    ingest-Preserves c raw =
        if-Preserves (λ _. raise-Preserves webhook_invalid)
          (λ _.
            result-Preserves (c.provider.parse_webhook raw) (store-Preserves c raw)
              (λ e. raise-Preserves webhook_invalid))
