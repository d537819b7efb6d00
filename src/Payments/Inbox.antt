-- ===== src/Payments/Inbox.antt =====
-- service/paymentservice/webhook_processor.go: the inbox of webhook events, and the passes over
-- events and stale intents.
pub mod Dedup
use vk_agregator.Base.{
  ℕ, suc, ◌-◌, ◌*◌, String, Bool, true, false, not, ◌&&◌, ◌||◌, Option, none, some, List, [], ◌∷◌,
  Uuid, nil_uuid, ltb, nat_beq, if◌then◌else◌,
}
use vk_agregator.Base.Lists.{length}
use vk_agregator.Base.Text.{trim_space}
use vk_agregator.Base.Eq.{◌==◌, text_key}
use vk_agregator.Base.Int.{ℤ, pos, negsuc}
use vk_agregator.Base.Action.{
  Action, Result, ok, err, Error, webhook_invalid, webhook_mismatch, pure, raise, raise_if, try,
  ◌>>=◌, ◌>>◌,
}
use vk_agregator.Domain.Billing.{Time}
use vk_agregator.Domain.Payment.{
  PaymentProviderCode, IntentStatus, PaymentIntent, PaymentEvent, WebhookEvent, PaymentProvider,
}
use vk_agregator.Billing.Service.{Service}
use vk_agregator.Payments.Repo.{or_text}
use vk_agregator.Payments.Repo.Events.{create_event}
use vk_agregator.Payments.Repo.Listings.{
  list_unprocessed_events, list_intents_for_reconciliation, PaymentReconciliationFilter,
}
use vk_agregator.Payments.Books.{Books, Call, on_payments}
use vk_agregator.Payments.Webhooks.{process_event, sync_intent}

abbrev pub blank : String → Bool
blank s = trim_space s == ""

-- The event that is stored for a webhook of which `raw` is the body.
abbrev pub inbox_event : PaymentProviderCode → String → WebhookEvent → PaymentEvent
inbox_event code raw w = record {
  id = nil_uuid;
  provider = or_text w.provider code;
  event_type = w.event_type;
  provider_payment_id = trim_space w.provider_payment_id;
  provider_refund_id = trim_space w.provider_refund_id;
  dedup_key = trim_space w.dedup_key;
  payload = or_text w.payload raw;
  processed_at = none;
  received_at = 0;
  updated_at = 0;
}

-- `IngestWebhook` from the parsed webhook on.
unfoldable pub store_webhook : Call → String → WebhookEvent → Action Books (Bool × PaymentEvent)
store_webhook c raw w = do
  raise_if (not (or_text w.provider c.provider.code == c.provider.code)) webhook_invalid
  raise_if (blank w.event_type || blank w.dedup_key) webhook_invalid
  raise_if (blank w.provider_payment_id && blank w.provider_refund_id) webhook_invalid
  on_payments (create_event c.id c.stored (inbox_event c.provider.code raw w))

unfoldable pub ingest_webhook : Call → String → Action Books (Bool × PaymentEvent)
unfolding store_webhook
ingest_webhook c raw =
    if raw == "" then raise webhook_invalid else elim (c.provider.parse_webhook raw) [
      | err e ↦ raise webhook_invalid
      | ok w ↦ store_webhook c raw w
    ]

-- `if limit <= 0 { limit = usual }`, then `if limit > most { limit = most }`
abbrev clamp : ℕ → ℕ → ℤ → ℕ
clamp usual most (pos n) = if nat_beq n 0 then usual else if ltb most n then most else n
clamp usual most (negsuc n) = usual

abbrev pub first_of : Option Error → Error → Option Error
first_of none e = some e
first_of (some first) e = some first

-- How a pass over events went: how many were processed, and the first error.
pub record BatchResult : Type 0 where
  pub processed : ℕ
  pub first_error : Option Error

pub record ReconciliationResult : Type 0 where
  pub checked : ℕ
  pub processed : ℕ
  pub mismatches : ℕ
  pub first_error : Option Error

abbrev is_mismatch : Error → Bool
is_mismatch webhook_mismatch = true
is_mismatch _ = false

-- A pass makes one call for each event or intent of its batch, which `calls` gives by identifier.
module _ (uuid_string : Uuid → String) (billing : Service) (calls : Uuid → Call) where
  abbrev batch_step : Result (Unit {0}) → BatchResult → BatchResult
  batch_step (ok _) b = record b { processed = suc b.processed }
  batch_step (err e) b = record b { first_error = first_of b.first_error e }

  abbrev process_events : BatchResult → List PaymentEvent → Action Books BatchResult
  process_events done [] = pure done
  process_events done (event ∷ events) = do
    result ← try (do process_event uuid_string billing (calls event.id) event; pure tt)
    process_events (batch_step result done) events

  unfoldable pub process_batch : PaymentProvider → ℤ → Action Books BatchResult
  process_batch provider limit = do
    events ← on_payments (list_unprocessed_events provider.code (clamp 20 100 limit))
    process_events (record { processed = 0; first_error = none }) events

  abbrev reconciled : Result PaymentIntent → ReconciliationResult → ReconciliationResult
  reconciled (ok _) b = record b { processed = suc b.processed }
  reconciled (err e) b = record b {
    mismatches = if is_mismatch e then suc b.mismatches else b.mismatches;
    first_error = first_of b.first_error e;
  }

  abbrev reconcile_intents :
      ReconciliationResult → List PaymentIntent → Action Books ReconciliationResult
  reconcile_intents done [] = pure done
  reconcile_intents done (intent ∷ intents) = do
    result ← try (sync_intent uuid_string billing (calls intent.id) intent.id)
    reconcile_intents (reconciled result done) intents

  -- 30 seconds, in nanoseconds.
  abbrev default_stale_after : Time
  default_stale_after = 30 * 1_000_000_000

  unfoldable pub reconcile_pending_older_than :
      PaymentProvider → Time → Time → ℤ → Time → Action Books ReconciliationResult
  reconcile_pending_older_than provider now stored limit stale_after = do
    let age = if nat_beq stale_after 0 then default_stale_after else stale_after
    let wanted : PaymentReconciliationFilter = record {
      provider = provider.code;
      statuses = IntentStatus.provider_pending ∷ IntentStatus.waiting_for_user ∷ [];
      updated_before = now - age;
    }
    intents ← on_payments (list_intents_for_reconciliation stored wanted (clamp 100 500 limit))
    let begun : ReconciliationResult = record {
      checked = length intents;
      processed = 0;
      mismatches = 0;
      first_error = none;
    }
    reconcile_intents begun intents

  unfoldable pub reconcile_pending :
      PaymentProvider → Time → Time → ℤ → Action Books ReconciliationResult
  unfolding reconcile_pending_older_than
  reconcile_pending provider now stored limit =
      reconcile_pending_older_than provider now stored limit default_stale_after
