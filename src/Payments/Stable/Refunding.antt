-- ===== src/Payments/Stable/Refunding.antt =====
-- The refund calls of the payment processor break no stable property
-- (service/paymentservice/webhook_processor.go).
use mathlib.Core.Path.{subst}
use vk_agregator.Base.{◌≡◌, refl, ap, sym, true, not, String, Uuid, arith}
use vk_agregator.Base.Action.{is_not_found, forbidden, Error}
use vk_agregator.Base.Eq.{◌==◌, text_key, uuid_key}
use vk_agregator.Base.Preserves.{
  Preserves, chain-Preserves, then-Preserves, if-Preserves, pure-Preserves, raise-Preserves,
  raise_if-Preserves, try-Preserves, result-Preserves, preserving,
}
use vk_agregator.Tx.{run_in_tx-Preserves}
use vk_agregator.Domain.Billing.{LedgerEntry}
use vk_agregator.Domain.Payment.{
  IntentStatus, intent_status_beq, intent_can_transition_to, RefundStatus, PaymentIntent,
  PaymentRefund, RefundResult,
}
use vk_agregator.Billing.{Draw}
use vk_agregator.Billing.Repo.{append_entry}
use vk_agregator.Billing.Service.{Service, forgive_conflict}
use vk_agregator.Payments.Books.{Books, Call, on_ledger}
use vk_agregator.Billing.Service.Idempotent.{forgive_conflict-state}
use vk_agregator.Payments.Refunds.{
  refund_intent, RefundIntentInput, open_refund, ensure_refund_intent_record, give_back,
  compensate_refund_debit, refund_failed, accept_refund, submit_provider_refund, judge_refund,
  refund_request,
}
use vk_agregator.Payments.Links.{reading, reads_refund, reads_topup}
use vk_agregator.Payments.Stable.{IsStable}

module _ (uuid_string : Uuid → String) (billing : Service) where
  module _ {P : Books → Type 0} (stable : IsStable uuid_string billing P) where
    open_refund-Preserves :
        (c : Call) (i : RefundIntentInput) → Preserves P (open_refund uuid_string c i)
    unfolding open_refund
    open_refund-Preserves c i =
        search (preserving, reading, reads_topup, stable.opens, stable.appends) depth 20

    ensure_refund-Preserves :
        (c : Call) (i : RefundIntentInput)
        → Preserves P (ensure_refund_intent_record uuid_string c i)
    unfolding ensure_refund_intent_record
    ensure_refund-Preserves c i =
        chain-Preserves (try-Preserves (reads_refund i.idempotency_key)) (λ found.
          result-Preserves found
            (λ existing.
              then-Preserves
                (raise_if-Preserves (not (existing.intent_id == i.intent_id)) forbidden)
                (pure-Preserves existing))
            (λ e.
              if-Preserves {test = is_not_found e}
                (λ _. run_in_tx-Preserves c.begin c.commit (open_refund-Preserves c i))
                (λ _. raise-Preserves e)))

    forgiven-Preserves :
        (d : Draw) (e : LedgerEntry) → Preserves P (on_ledger (forgive_conflict (append_entry d e)))
    forgiven-Preserves d e = record {
      kept = λ b p.
          subst P
            (ap (λ r. record b { billing = r })
              (sym (forgive_conflict-state (append_entry d e) b.billing)))
            ((stable.appends d e).kept b p);
    }

    give_back-Preserves :
        (c : Call) (intent : PaymentIntent) (refund : PaymentRefund) (name : String)
        (status : RefundStatus)
        → Preserves P (give_back uuid_string c intent refund name status)
    unfolding give_back
    give_back-Preserves c intent refund name status =
        search (preserving, reading, forgiven-Preserves, stable.answers) depth 12

    refund_failed-Preserves :
        {A : Type 0} (c : Call) (intent : PaymentIntent) (refund : PaymentRefund) (name : String)
        (status : RefundStatus) (e : Error)
        → Preserves P (refund_failed uuid_string {A = A} c intent refund name status e)
    unfolding refund_failed compensate_refund_debit
    refund_failed-Preserves c intent refund name status e =
        then-Preserves
          (try-Preserves (
            run_in_tx-Preserves c.begin c.commit (give_back-Preserves c intent refund name status)))
          (raise-Preserves e)

    refunded_next :
        (s : IntentStatus)
        → intent_status_beq s IntentStatus.succeeded ≡ true
        → intent_can_transition_to s IntentStatus.refunded ≡ true
    unfolding intent_can_transition_to
    refunded_next IntentStatus.succeeded h = refl
    refunded_next (IntentStatus.other x) h = ground arith
    refunded_next _ h = ground arith

    accept_refund-Preserves :
        (c : Call) (intent : PaymentIntent) (refund : PaymentRefund) (answer : RefundResult)
        → Preserves P (accept_refund uuid_string c intent refund answer)
    unfolding accept_refund
    accept_refund-Preserves c intent refund answer =
        search (preserving, reading, stable.answers, stable.moves, refunded_next) depth 16

    judge-Preserves :
        (c : Call) (intent : PaymentIntent) (refund : PaymentRefund) (answer : RefundResult)
        → Preserves P (judge_refund uuid_string c intent refund answer)
    unfolding judge_refund
    judge-Preserves c intent refund answer =
        search
          (
            preserving,
            reading,
            refund_failed-Preserves,
            accept_refund-Preserves,
            run_in_tx-Preserves c.begin c.commit,
          )
          depth 16

    submit-Preserves :
        (c : Call) (intent : PaymentIntent) (refund : PaymentRefund) (reason : String)
        → Preserves P (submit_provider_refund uuid_string c intent refund reason)
    unfolding submit_provider_refund
    submit-Preserves c intent refund reason =
        result-Preserves
          (c.provider.create_refund (refund_request uuid_string intent refund reason))
          (judge-Preserves c intent refund)
          (λ e. refund_failed-Preserves c intent refund "" RefundStatus.failed e)

    pub refund-Preserves :
        (c c' : Call) (i : RefundIntentInput) → Preserves P (refund_intent uuid_string c c' i)
    unfolding refund_intent
    refund-Preserves c c' i =
        search (preserving, reading, ensure_refund-Preserves, submit-Preserves) depth 14
