-- ===== src/Payments/Tests.antt =====
-- Tests of the payment processor (service/paymentservice/webhook_processor.go), and its theorems at
-- concrete inputs.
use Prim.Native.String.{◌++◌}
use vk_agregator.Base.{
  zero, suc, ℕ, ◌+◌, String, ◌≡◌, ◌≢◌, refl, Bool, true, false, none, some, Uuid, arith,
}
use vk_agregator.Base.Eq.{uuid_key, text_key}
use vk_agregator.Base.Text.{trim_space, is_space, to_lower, has_prefix}
use vk_agregator.Base.Dict.{lookup}
use vk_agregator.Base.Int.{pos, ◌+ℤ◌, ◌-ℤ◌}
use vk_agregator.Base.Int64.{◌+₆₄◌, ◌-₆₄◌, neg64, wrap64}
use vk_agregator.Base.Action.{ok, err, refund_not_allowed, webhook_unverified}
use vk_agregator.Domain.Billing.{currency_credits, CreditAccount}
use vk_agregator.Domain.Payment.{
  IntentStatus, RefundStatus, currency_rub, PaymentIntent, PaymentEvent, ProviderPayment,
  WebhookEvent, PaymentProvider, PaymentRefund, payment_intent_transitions, intent_status_valid,
  intent_can_transition_to, refund_status_valid,
}
use vk_agregator.Billing.{grant_open_key, user_currency_key}
use vk_agregator.Billing.Repo.{
  new_billing_repo, create_account, append_entry, append_locked, completed, get_account_by_user,
  balance, list_entries,
}
use vk_agregator.Billing.Service.{
  new_service, grant_with_owner, ensure_account_with, create_or_read,
}
use vk_agregator.Payments.Repo.{
  new_payment_repo, create_intent, intent_row, get_intent_by_id, update_intent_status,
  get_intent_by_provider_payment_id,
}
use vk_agregator.Payments.Repo.Events.{create_event, get_event_by_id, mark_event_processed}
use vk_agregator.Payments.Repo.Refunds.{
  create_refund, get_refund_by_idempotency_key, set_refund_provider_state,
}
use vk_agregator.Payments.Books.{
  Books, Call, top_up_ledger_key, refund_debit_ledger_key, refund_compensate_ledger_key,
}
use vk_agregator.Payments.Provider.{
  validate_provider_payment, verified_provider_payment, verified_provider_payment_for_event,
}
use vk_agregator.Payments.Settlement.{apply_provider_payment, move_status, grant_top_up}
use vk_agregator.Payments.Settlement.Verified.{IsPaidFor}
use vk_agregator.Payments.Webhooks.{
  process_event, sync_intent, settle_event, settle_intent, ack_inbox_event,
}
use vk_agregator.Payments.Webhooks.Trusted.{sync-IsPaidFor}
use vk_agregator.Payments.Webhooks.Once.{process-once}
use vk_agregator.Payments.Inbox.{ingest_webhook, store_webhook}
use vk_agregator.Payments.Inbox.Dedup.{ingest-once}
use vk_agregator.Payments.Scan.{scan_page, ensure_topup_credits_refundable}
use vk_agregator.Payments.Scan.Whole.{ensure_refundable-agrees}
use vk_agregator.Payments.Refunds.{open_refund, RefundIntentInput}
use vk_agregator.Payments.Refunds.Once.{open_refund-once}
use vk_agregator.Payments.Receipt.{default_string}
use vk_agregator.Payments.History.{start, next, processes, syncs}
use vk_agregator.Payments.History.Paid.{IsPaidAt, Steps-IsPaidAt}
use vk_agregator.Payments.History.Credited.{credited-once}
use vk_agregator.Tx.{run_in_tx}

-- What a run computes with.
runs : Unit {0}
unfolding create_account append_entry append_locked completed get_account_by_user list_entries
    grant_with_owner ensure_account_with create_or_read ◌+₆₄◌ ◌-₆₄◌ neg64 wrap64 ◌+ℤ◌ ◌-ℤ◌
    grant_open_key user_currency_key payment_intent_transitions intent_status_valid
    intent_can_transition_to refund_status_valid create_intent intent_row get_intent_by_id
    update_intent_status get_intent_by_provider_payment_id create_event get_event_by_id
    mark_event_processed create_refund get_refund_by_idempotency_key set_refund_provider_state
    top_up_ledger_key refund_debit_ledger_key refund_compensate_ledger_key validate_provider_payment
    verified_provider_payment verified_provider_payment_for_event apply_provider_payment move_status
    grant_top_up process_event sync_intent settle_event default_string settle_intent ack_inbox_event
    trim_space is_space to_lower has_prefix ingest_webhook store_webhook scan_page
    ensure_topup_credits_refundable open_refund run_in_tx
runs = tt

abbrev id_text : Uuid → String
id_text zero = "0"
id_text (suc n) = "1" ++ id_text n

abbrev wanted : PaymentIntent
wanted = record {
  id = 0;
  user_id = 7;
  account_id = 0;
  product_id = none;
  status = IntentStatus.waiting_for_user;
  amount = pos 49_900;
  currency = currency_rub;
  credits = pos 100;
  price_version = pos 1;
  receipt_description = "";
  vat_code = none;
  payment_subject = "";
  payment_mode = "";
  provider = "yookassa";
  provider_payment_id = "p1";
  confirmation_url = "";
  idempotency_key = "pay:1";
  receipt_email = "";
  receipt_phone = "";
  metadata = "";
  created_at = 0;
  updated_at = 0;
  expires_at = none;
}

abbrev intent : PaymentIntent
intent = record wanted { id = 3; account_id = 7; metadata = "{}"; created_at = 5; updated_at = 5 }

-- Books with one payment intent that waits for its user.
abbrev books : Books
books = record {
  payments = (create_intent 3 5 wanted new_payment_repo).1;
  billing = new_billing_repo;
}

abbrev payment : IntentStatus → Bool → ProviderPayment
payment status paid = record {
  provider_payment_id = "p1";
  status = status;
  amount = pos 49_900;
  currency = currency_rub;
  paid = paid;
  captured = paid;
  refundable = paid;
  raw = "";
}

abbrev webhook : WebhookEvent
webhook = record {
  provider = "yookassa";
  event_type = "payment.succeeded";
  provider_payment_id = "p1";
  provider_refund_id = "";
  dedup_key = " payment.succeeded:p1 ";
  payload = "{}";
}

abbrev provider : ProviderPayment → PaymentProvider
provider answer = record {
  code = "yookassa";
  get_payment = λ id. ok answer;
  cancel_payment = λ id. ok tt;
  create_refund = λ i. err refund_not_allowed;
  parse_webhook = λ raw. ok webhook;
}

-- A call at a time, with identifiers of its own, and what the provider answers to it.
abbrev call : ℕ → ProviderPayment → Call
call n answer = record {
  provider = provider answer;
  begin = none;
  commit = none;
  clock = n;
  stored = n;
  id = n;
  account = record { id = suc n; entry_id = suc (suc n); now = n };
  entry = record { id = 3 + n; entry_id = 4 + n; now = n };
}

abbrev succeeded : ProviderPayment
succeeded = payment IntentStatus.succeeded true

abbrev event : PaymentEvent
event = record {
  id = 10;
  provider = "yookassa";
  event_type = "payment.succeeded";
  provider_payment_id = "p1";
  provider_refund_id = "";
  dedup_key = "payment.succeeded:p1";
  payload = "{}";
  processed_at = none;
  received_at = 10;
  updated_at = 10;
}

-- The webhook is stored, and its event processed.
abbrev received : Books
received = (ingest_webhook (call 10 succeeded) "body" books).1

abbrev paid : Books
paid = (process_event id_text new_service (call 20 succeeded) event received).1

paid_balance : balance 21 paid.billing ≡ pos 130
unfolding runs
paid_balance = refl

unverified :
    (sync_intent id_text new_service (call 20 (payment IntentStatus.succeeded false)) 3 books).0
    ≡ err webhook_unverified
unfolding runs
unverified = refl

sync-IsPaidFor_example :
    let c = call 20 succeeded in
    (i : PaymentIntent) × (answer : ProviderPayment) × (lookup 3 books.payments.intents_by_id
      ≡ some i)
    × (c.provider.get_payment i.provider_payment_id ≡ ok answer)
    × IsPaidFor i answer
unfolding runs
sync-IsPaidFor_example =
    sync-IsPaidFor id_text new_service (call 20 succeeded) 3 books (λ same. ground (arith, same))

process-once_example : (process_event id_text new_service (call 30 succeeded) event paid).1 ≡ paid
unfolding runs
process-once_example =
    process-once id_text new_service (call 20 succeeded) (call 30 succeeded) event
      (record {
        status_changed = true;
        topup_granted = true;
        from = IntentStatus.waiting_for_user;
        to = IntentStatus.succeeded;
      })
      received refl

ingest-once_example :
    (false ≡ false) × ((ingest_webhook (call 12 succeeded) "again" received).1 ≡ received)
unfolding runs
ingest-once_example =
    ingest-once (call 10 succeeded) (call 12 succeeded) "body" "again" true false event
      (record event { id = 0; received_at = 0; updated_at = 0 }) books refl refl refl

-- A webhook is processed, and a sync then finds the payment refunded.
abbrev later : Books
later = (sync_intent id_text new_service (call 40 (payment IntentStatus.refunded true)) 3 paid).1

Steps-IsPaidAt_example : IsPaidAt 3 later
unfolding runs
Steps-IsPaidAt_example =
    Steps-IsPaidAt id_text new_service 3 {b = paid}
      (next (next start (processes (call 30 succeeded) event))
        (syncs (call 40 (payment IntentStatus.refunded true)) 3))
      refl

abbrev credited : Books
credited = (apply_provider_payment id_text new_service (call 20 succeeded) intent succeeded books).1

credited-once_example :
    (apply_provider_payment id_text new_service
      (call 50 succeeded)
      intent
      succeeded
      (sync_intent id_text new_service (call 40 succeeded) 3 credited).1).1.billing
    ≡ (sync_intent id_text new_service (call 40 succeeded) 3 credited).1.billing
unfolding runs
credited-once_example =
    credited-once id_text new_service (call 20 succeeded) (call 50 succeeded) intent intent
      succeeded succeeded
      (record {
        status_changed = true;
        topup_granted = true;
        from = IntentStatus.waiting_for_user;
        to = IntentStatus.succeeded;
      })
      books _ (omega arith) (refl, refl, refl, refl, refl) refl
      (next start (syncs (call 40 succeeded) 3)) refl refl

ensure_refundable-agrees_example :
    ensure_topup_credits_refundable 21 intent paid.billing ≡ (ok tt, paid.billing)
unfolding runs
ensure_refundable-agrees_example =
    ensure_refundable-agrees 21 intent paid.billing refl (omega arith)

abbrev account : CreditAccount
account = record {
  id = 21;
  user_id = 7;
  owner_account_id = 7;
  currency = currency_credits;
  balance_cached = pos 130;
  created_at = 20;
  updated_at = 20;
}

abbrev refund : PaymentRefund
refund = record {
  id = 60;
  intent_id = 3;
  provider_refund_id = "";
  amount = pos 49_900;
  status = RefundStatus.provider_pending;
  idempotency_key = "refund:1";
  reason = "asked for";
  created_at = 60;
  updated_at = 60;
}

abbrev asked : RefundIntentInput
asked = record { intent_id = 3; idempotency_key = "refund:1"; reason = "asked for" }

abbrev opened : Books
opened = (open_refund id_text (call 60 succeeded) asked paid).1

opened_balance : balance 21 opened.billing ≡ pos 30
unfolding runs
opened_balance = refl

open_refund-once_example :
    (ensure_topup_credits_refundable 21 intent
      (process_event id_text new_service (call 70 succeeded) event opened).1.billing).0
    ≢ ok tt
unfolding runs
open_refund-once_example =
    open_refund-once id_text new_service (call 60 succeeded) asked
      (record intent { status = IntentStatus.succeeded; updated_at = 20 }) account refund paid _
      (omega arith) (omega arith) refl refl refl refl
      (next start (processes (call 70 succeeded) event))
