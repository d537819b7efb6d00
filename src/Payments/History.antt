-- ===== src/Payments/History.antt =====
-- Any history of calls of the payment processor (service/paymentservice/webhook_processor.go), in any
-- order, failed ones too.
pub mod Paid
pub mod Credited
use vk_agregator.Base.{String, Uuid}
use vk_agregator.Base.Preserves.{Preserves}
use vk_agregator.Domain.Payment.{PaymentEvent}
use vk_agregator.Billing.Service.{Service}
use vk_agregator.Payments.Books.{Books, Call}
use vk_agregator.Payments.Webhooks.{process_event, sync_intent, cancel_intent}
use vk_agregator.Payments.Inbox.{ingest_webhook}
use vk_agregator.Payments.Refunds.{refund_intent, RefundIntentInput}
use vk_agregator.Payments.Stable.{
  IsStable, process-Preserves, sync-Preserves, cancel-Preserves, ingest-Preserves,
}
use vk_agregator.Payments.Stable.Refunding.{refund-Preserves}

module _ (uuid_string : Uuid → String) (billing : Service) where
  -- One call, with whatever the provider, the database and the clock answer to it.
  pub data Step (b : Books) : Books → Type 0 where
    ingests : (c : Call) (raw : String) → Step b (ingest_webhook c raw b).1
    processes :
        (c : Call) (event : PaymentEvent) → Step b (process_event uuid_string billing c event b).1
    syncs : (c : Call) (id : Uuid) → Step b (sync_intent uuid_string billing c id b).1
    cancels : (c : Call) (id : Uuid) → Step b (cancel_intent uuid_string billing c id b).1
    refunds : (c c' : Call) (i : RefundIntentInput) → Step b (refund_intent uuid_string c c' i b).1

  pub data Steps (b : Books) : Books → Type 0 where
    start : Steps b b
    next : {t u : Books} → Steps b t → Step t u → Steps b u

  module _ {P : Books → Type 0} (stable : IsStable uuid_string billing P) where
    step-Preserves : {b t : Books} → Step b t → P b → P t
    step-Preserves {b} (ingests c raw) p =
        (ingest-Preserves uuid_string billing stable c raw).kept b p
    step-Preserves {b} (processes c event) p =
        (process-Preserves uuid_string billing stable c event).kept b p
    step-Preserves {b} (syncs c id) p = (sync-Preserves uuid_string billing stable c id).kept b p
    step-Preserves {b} (cancels c id) p =
        (cancel-Preserves uuid_string billing stable c id).kept b p
    step-Preserves {b} (refunds c c' i) p =
        (refund-Preserves uuid_string billing stable c c' i).kept b p

    pub steps-Preserves : {b t : Books} → Steps b t → P b → P t
    steps-Preserves start p = p
    steps-Preserves (next h s) p = step-Preserves s (steps-Preserves h p)
