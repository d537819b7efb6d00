-- ===== src/Payments/Inbox/Dedup.antt =====
-- A webhook that a provider sends again is stored once
-- (service/paymentservice/webhook_processor.go, adapter/storage/memory/payment.go).
use mathlib.Core.Path.{subst}
use vk_agregator.Base.{
  ◌≡◌, refl, sym, ap, ◌∙◌, inl, inr, Bool, true, false, not, ◌&&◌, ◌||◌, String, Uuid, arith,
  Bool-cases,
}
use vk_agregator.Base.Eq.{◌==◌, text_key, uuid_key}
use vk_agregator.Base.Dict.{contains, lookup-insert_self}
use vk_agregator.Base.Action.{ok, Result-cases, ok_injective}
use vk_agregator.Domain.Billing.{Time}
use vk_agregator.Domain.Payment.{PaymentEvent, WebhookEvent}
use vk_agregator.Payments.Repo.{PaymentRepo, or_text}
use vk_agregator.Payments.Repo.Events.{create_event, event_row}
use vk_agregator.Payments.Books.{Books, Call, on_payments}
use vk_agregator.Payments.Inbox.{inbox_event, blank, store_webhook, ingest_webhook}

abbrev knows : String → PaymentRepo → Bool
knows key r = contains key r.event_id_by_dedup

create_known :
    (id : Uuid) (now : Time) (event : PaymentEvent) (r : PaymentRepo)
    → knows event.dedup_key r ≡ true
    → create_event id now event r ≡ (ok (false, event), r)
unfolding create_event
create_known id now event r known = rw known refl

create_knows :
    (id : Uuid) (now : Time) (event : PaymentEvent) (r : PaymentRepo)
    → knows event.dedup_key (create_event id now event r).1 ≡ true
unfolding create_event
create_knows id now event r = elim (Bool-cases (knows event.dedup_key r)) [
  | inl known ↦ rw known known
  | inr fresh ↦ rw fresh (
      ground
        (arith, lookup-insert_self event.dedup_key (event_row id now event).id r.event_id_by_dedup))
]

create_key :
    (id : Uuid) (now : Time) (event : PaymentEvent) (r : PaymentRepo)
    → (made : Bool) × (row : PaymentEvent) × ((create_event id now event r).0 ≡ ok (made, row))
      × (row.dedup_key ≡ event.dedup_key)
unfolding create_event
create_key id now event r = elim (Bool-cases (knows event.dedup_key r)) [
  | inl known ↦ (false, event, rw known refl, refl)
  | inr fresh ↦ (true, event_row id now event, rw fresh refl, refl)
]

-- What `IngestWebhook` stores, where it answers without an error.
store_goes :
    (c : Call) (raw : String) (w : WebhookEvent) (x : Bool × PaymentEvent) (b : Books)
    → (store_webhook c raw w b).0 ≡ ok x
    → store_webhook c raw w b
      ≡ on_payments (create_event c.id c.stored (inbox_event c.provider.code raw w)) b
unfolding store_webhook
store_goes c raw w x b went =
    elim (Bool-cases (not (or_text w.provider c.provider.code == c.provider.code))) [
      | inl foreign ↦ absurd (ground (arith, rw foreign at went))
      | inr ours ↦ elim (Bool-cases (blank w.event_type || blank w.dedup_key)) [
        | inl untyped ↦ absurd (ground (arith, rw (ours, untyped) at went))
        | inr typed ↦
            elim (Bool-cases (blank w.provider_payment_id && blank w.provider_refund_id)) [
              | inl unnamed ↦ absurd (ground (arith, rw (ours, typed, unnamed) at went))
              | inr named ↦ rw (ours, typed, named) refl
            ]
      ]
    ]

ingest_goes :
    (c : Call) (raw : String) (x : Bool × PaymentEvent) (b : Books)
    → (ingest_webhook c raw b).0 ≡ ok x
    → (event : PaymentEvent) × (ingest_webhook c raw b
        ≡ on_payments (create_event c.id c.stored event) b)
unfolding ingest_webhook
ingest_goes c raw x b went = elim (Bool-cases (raw == "")) [
  | inl blank_ ↦ absurd (ground (arith, rw blank_ at went))
  | inr body ↦ elim (Result-cases (c.provider.parse_webhook raw)) [
    | inr (e, bad) ↦ absurd (ground (arith, rw (body, bad) at went))
    | inl (w, parsed) ↦
        let same : ingest_webhook c raw b ≡ store_webhook c raw w b = rw body (rw parsed refl) in
        (
          inbox_event c.provider.code raw w,
          same ∙ store_goes c raw w x b (ap (λ t. t.0) (sym same) ∙ went),
        )
  ]
]

-- The key under which an accepted webhook is stored.
stored_key :
    (c : Call) (given : PaymentEvent) (made : Bool) (row : PaymentEvent) (b : Books)
    → (on_payments (create_event c.id c.stored given) b).0 ≡ ok (made, row)
    → row.dedup_key ≡ given.dedup_key
stored_key c given made row b went =
    let (_, row', answer, key) = create_key c.id c.stored given b.payments in
    ap (λ x. x.1.dedup_key) (ok_injective (sym went ∙ answer)) ∙ key

-- A webhook that is sent again is stored once: where two webhooks with one dedup key are accepted,
-- one after the other, the second is reported as a duplicate, and changes nothing.
pub ingest-once :
    (c c' : Call) (raw raw' : String) (made made' : Bool) (event event' : PaymentEvent) (b : Books)
    → let t = ingest_webhook c raw b in
      t.0 ≡ ok (made, event)
      → (ingest_webhook c' raw' t.1).0 ≡ ok (made', event')
      → event.dedup_key ≡ event'.dedup_key
      → (made' ≡ false) × ((ingest_webhook c' raw' t.1).1 ≡ t.1)
ingest-once c c' raw raw' made made' event event' b went went' same =
    let (first, goes) = ingest_goes c raw (made, event) b went in
    let t = (ingest_webhook c raw b).1 in
    let (second, goes') = ingest_goes c' raw' (made', event') t went' in
    let first_key = stored_key c first made event b (ap (λ x. x.0) (sym goes) ∙ went) in
    let second_key = stored_key c' second made' event' t (ap (λ x. x.0) (sym goes') ∙ went') in
    let known =
      subst (λ key. knows key t.payments ≡ true) (sym first_key ∙ same ∙ second_key)
        (ap (λ x. knows first.dedup_key x.1.payments) goes
          ∙ create_knows c.id c.stored first b.payments) in
    let again =
      goes'
      ∙ ap (λ x. (x.0, record t { payments = x.1 }))
          (create_known c'.id c'.stored second t.payments known) in
    (ap (λ x. x.0) (ok_injective (sym went' ∙ ap (λ x. x.0) again)), ap (λ x. x.1) again)
