-- ===== src/Payments/History/Paid.antt =====
-- A payment that has succeeded stays so (domain/payment.go,
-- service/paymentservice/webhook_processor.go).
use vk_agregator.Base.{
  ◌≡◌, ap, ◌∙◌, inl, inr, Bool, true, false, Option, none, some, Uuid, String, arith, Bool-cases,
  Option-cases,
}
use vk_agregator.Base.Eq.{uuid_key}
use vk_agregator.Base.Dict.{lookup, lookup-insert}
use vk_agregator.Base.Action.{Action}
use vk_agregator.Base.Preserves.{Preserves}
use vk_agregator.Domain.Billing.{Time}
use vk_agregator.Domain.Payment.{
  IntentStatus, intent_status_beq, intent_can_transition_to, PaymentIntent,
}
use vk_agregator.Billing.Service.{Service}
use vk_agregator.Payments.Repo.{PaymentRepo, update_intent_status}
use vk_agregator.Payments.Repo.Events.{create_event, mark_event_processed}
use vk_agregator.Payments.Repo.Refunds.{create_refund, set_refund_provider_state}
use vk_agregator.Payments.Books.{Books, on_payments}
use vk_agregator.Payments.Webhooks.{is_paid}
use vk_agregator.Payments.Stable.{IsStable}
use vk_agregator.Payments.History.{Steps, steps-Preserves}

-- The status of a row, if there is one, is that of a payment that has gone through.
abbrev paid_row : Option PaymentIntent → Bool
paid_row none = false
paid_row (some intent) = is_paid intent.status

-- The intent is stored, and has succeeded; it may have been refunded since.
abbrev pub IsPaidAt : Uuid → Books → Type 0
IsPaidAt id b = paid_row (lookup id b.payments.intents_by_id) ≡ true

-- What the table of transitions allows keeps a paid status paid.
from_paid :
    (s from : IntentStatus)
    → is_paid s ≡ true
    → intent_status_beq s from ≡ true
    → is_paid from ≡ true
from_paid (IntentStatus.other x) from p e = ground arith
from_paid _ (IntentStatus.other x) p e = ground arith
from_paid _ _ p e = ground arith

to_paid :
    (from to : IntentStatus)
    → is_paid from ≡ true
    → intent_can_transition_to from to ≡ true
    → is_paid to ≡ true
unfolding intent_can_transition_to
to_paid (IntentStatus.other x) to p h = ground arith
to_paid _ (IntentStatus.other x) p h = ground arith
to_paid _ _ p h = ground arith

update-paid :
    (now : Time) (id id' : Uuid) (from to : IntentStatus) (r : PaymentRepo)
    → intent_can_transition_to from to ≡ true
    → paid_row (lookup id r.intents_by_id) ≡ true
    → paid_row (lookup id (update_intent_status now id' from to r).1.intents_by_id) ≡ true
unfolding update_intent_status
update-paid now id id' from to r h p = elim (Option-cases (lookup id' r.intents_by_id)) [
  | inl missing ↦ ground (arith, missing, p)
  | inr (row, found) ↦ elim (Bool-cases (intent_status_beq row.status from)) [
    | inr other ↦ ground (arith, found, other, p)
    | inl same ↦ ground (
      arith,
      lookup-insert id' id (record row { status = to; updated_at = now }) r.intents_by_id,
      uuid_key.same_iff id' id,
      from_paid row.status from,
      to_paid from to,
    )
  ]
]

-- What leaves the stored intents alone.
untouched :
    {A : Type 0} (id : Uuid) (m : Action PaymentRepo A)
    → ((r : PaymentRepo) → (m r).1.intents_by_id ≡ r.intents_by_id)
    → Preserves (IsPaidAt id) (on_payments m)
untouched id m same = record {
  kept = λ b p. ap (λ rows. paid_row (lookup id rows)) (same b.payments) ∙ p;
}

module _ (uuid_string : Uuid → String) (billing : Service) where
  IsPaidAt-IsStable : (id : Uuid) → IsStable uuid_string billing (IsPaidAt id)
  IsPaidAt-IsStable id = record {
    moves =
        λ now id' from to h. record { kept = λ b p. update-paid now id id' from to b.payments h p };
    marks = λ now id' at.
        untouched id (mark_event_processed now id' at)
          (λ r. unfold mark_event_processed in ground arith);
    receives = λ id' now event.
        untouched id (create_event id' now event) (λ r. unfold create_event in ground arith);
    opens = λ id' now refund.
        untouched id (create_refund id' now refund) (λ r. unfold create_refund in ground arith);
    answers = λ now id' name status.
        untouched id (set_refund_provider_state now id' name status)
          (λ r. unfold set_refund_provider_state in ground arith);
    grants = λ d d' user account amount key reason. record { kept = λ b p. p };
    appends = λ d e. record { kept = λ b p. p };
  }

  -- A payment that has gone through is never rolled back: from books where an intent has succeeded,
  -- or has been refunded since, no history of webhooks, syncs, cancellations and refunds, whatever
  -- the provider, the database and the clock answer, leads to books where it is missing or in any
  -- other status.
  pub Steps-IsPaidAt :
      (id : Uuid) {b t : Books} → Steps uuid_string billing b t → IsPaidAt id b → IsPaidAt id t
  Steps-IsPaidAt id h p = steps-Preserves uuid_string billing (IsPaidAt-IsStable id) h p
