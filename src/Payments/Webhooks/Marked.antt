-- ===== src/Payments/Webhooks/Marked.antt =====
-- When a webhook event has been marked as processed (service/paymentservice/webhook_processor.go).
use mathlib.Core.Path.{subst}
use vk_agregator.Base.{
  nat_beq, ◌≡◌, refl, sym, ap, ◌∙◌, inl, inr, Bool, true, false, ◌||◌, Option, none, some, Uuid,
  arith, Bool-cases, Option-cases, if◌then◌else◌,
}
use vk_agregator.Base.Eq.{◌==◌, text_key, uuid_key}
use vk_agregator.Base.Dict.{lookup, lookup-insert_self}
use vk_agregator.Base.Text.{trim_space}
use vk_agregator.Base.Action.{Action, ok, err, pure, chain-by, chain-err, not_found, ◌>>=◌}
use vk_agregator.Base.Preserves.{Preserves}
use vk_agregator.Domain.Billing.{Time}
use vk_agregator.Domain.Payment.{PaymentEvent}
use vk_agregator.Tx.{run_in_tx_ok, run_in_tx-Preserves}
use vk_agregator.Payments.Repo.{is_processed}
use vk_agregator.Payments.Repo.Events.{get_event_by_id, mark_event_processed}
use vk_agregator.Payments.Books.{Books, Call, on_payments}
use vk_agregator.Payments.Webhooks.{ack_inbox_event, is_refund_webhook_event}

abbrev processed_row : Option PaymentEvent → Bool
processed_row none = false
processed_row (some event) = is_processed event

-- The event is stored, and processed.
abbrev pub IsProcessedAt : Uuid → Books → Type 0
IsProcessedAt id b = processed_row (lookup id b.payments.events_by_id) ≡ true

pub get_event_found :
    (id : Uuid) (event : PaymentEvent) (b : Books)
    → lookup id b.payments.events_by_id ≡ some event
    → on_payments (get_event_by_id id) b ≡ (ok event, b)
unfolding get_event_by_id
get_event_found id event b found = ground arith

pub get_event_missing :
    (id : Uuid) (b : Books)
    → lookup id b.payments.events_by_id ≡ none
    → on_payments (get_event_by_id id) b ≡ (err not_found, b)
unfolding get_event_by_id
get_event_missing id b missing = ground arith

pub get_event_processed :
    (id : Uuid) (b : Books)
    → IsProcessedAt id b
    → (event : PaymentEvent) × (on_payments (get_event_by_id id) b ≡ (ok event, b))
      × (is_processed event ≡ true)
get_event_processed id b p = elim (Option-cases (lookup id b.payments.events_by_id)) [
  | inl missing ↦ absurd (ground (arith, missing, p))
  | inr (event, found) ↦ (event, get_event_found id event b found, ground (arith, found, p))
]

pub mark-IsProcessedAt :
    (now : Time) (id : Uuid) (at : Time) (b : Books)
    → (on_payments (mark_event_processed now id at) b).0 ≡ ok tt
    → IsProcessedAt id (on_payments (mark_event_processed now id at) b).1
unfolding mark_event_processed
mark-IsProcessedAt now id at b went = elim (Option-cases (lookup id b.payments.events_by_id)) [
  | inl missing ↦ absurd (ground (arith, missing, went))
  | inr (event, found) ↦ elim (Bool-cases (is_processed event)) [
    | inl done ↦ ground (arith, found, done)
    | inr waiting ↦ ground (
      arith,
      found,
      waiting,
      lookup-insert_self id
          (record event {
            processed_at = some (if nat_beq at 0 then now else at);
            updated_at = if nat_beq at 0 then now else at;
          })
          b.payments.events_by_id,
    )
  ]
]

-- An event that is acknowledged and has no effect.
abbrev pub is_silent : PaymentEvent → Bool
is_silent event =
    is_refund_webhook_event event.event_type || trim_space event.provider_payment_id == ""

-- What leaves books `b` as they are, from `b` on.
abbrev pub IsStill : Books → Books → Type 0
IsStill b t = t ≡ b

-- The transaction of `ackInboxEvent` from the stored event on.
abbrev acks_from : Call → Uuid → PaymentEvent → Action Books (Unit {0})
acks_from c id current =
    if is_processed current then pure tt else on_payments (mark_event_processed c.stored id c.clock)

pub ack_again :
    (c : Call) (id : Uuid) (b : Books)
    → IsProcessedAt id b
    → Preserves (IsStill b) (ack_inbox_event c id)
unfolding ack_inbox_event
ack_again c id b p = run_in_tx-Preserves c.begin c.commit (record {
  kept = λ s same.
      let (event, read, done) = get_event_processed id b p in
      subst (λ t. (acks t).1 ≡ b) (sym same)
        (ap (λ t. t.1) (chain-by (on_payments (get_event_by_id id)) (acks_from c id) b read)
          ∙ rw done refl);
})
  where
    acks : Action Books (Unit {0})
    acks = on_payments (get_event_by_id id) >>= acks_from c id

ack_reads-IsProcessedAt :
    (c : Call) (id : Uuid) (event : PaymentEvent) (b : Books)
    → lookup id b.payments.events_by_id ≡ some event
    → (acks_from c id event b).0 ≡ ok tt
    → IsProcessedAt id (acks_from c id event b).1
ack_reads-IsProcessedAt c id event b found went = elim (Bool-cases (is_processed event)) [
  | inl done ↦ rw done (rw found done)
  | inr waiting ↦
      let same : acks_from c id event b ≡ on_payments (mark_event_processed c.stored id c.clock) b =
        rw waiting refl in
      subst (IsProcessedAt id) (ap (λ t. t.1) (sym same))
        (mark-IsProcessedAt c.stored id c.clock b (ap (λ t. t.0) (sym same) ∙ went))
]

ack_body-IsProcessedAt :
    (c : Call) (id : Uuid) (b : Books)
    → let t = (on_payments (get_event_by_id id) >>= acks_from c id) b in
      t.0 ≡ ok tt → IsProcessedAt id t.1
ack_body-IsProcessedAt c id b went =
    let reads = on_payments (get_event_by_id id) in
    elim (Option-cases (lookup id b.payments.events_by_id)) [
      | inl missing ↦
          let lost = chain-err reads (acks_from c id) b (get_event_missing id b missing) in
          absurd (ground (arith, ap (λ t. t.0) (sym lost) ∙ went))
      | inr (event, found) ↦
          let goes = chain-by reads (acks_from c id) b (get_event_found id event b found) in
          subst (IsProcessedAt id) (ap (λ t. t.1) (sym goes))
            (ack_reads-IsProcessedAt c id event b found (ap (λ t. t.0) (sym goes) ∙ went))
    ]

pub ack-IsProcessedAt :
    (c : Call) (id : Uuid) (b : Books)
    → (ack_inbox_event c id b).0 ≡ ok tt
    → IsProcessedAt id (ack_inbox_event c id b).1
unfolding ack_inbox_event
ack-IsProcessedAt c id b went =
    let body = on_payments (get_event_by_id id) >>= acks_from c id in
    let ran = run_in_tx_ok c.begin c.commit body b tt went in
    subst (IsProcessedAt id) (ap (λ t. t.1) (sym ran))
      (ack_body-IsProcessedAt c id b (ap (λ t. t.0) (sym ran) ∙ went))
