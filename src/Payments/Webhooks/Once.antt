-- ===== src/Payments/Webhooks/Once.antt =====
-- A webhook event takes effect once (service/paymentservice/webhook_processor.go).
use mathlib.Core.Path.{subst}
use vk_agregator.Payments.Links.{verified_for_event-Preserves}
use vk_agregator.Base.{
  ◌≡◌, refl, sym, ap, ◌∙◌, inl, inr, true, false, not, some, Uuid, String, arith, Bool-cases,
  Option-cases, nil_uuid, if◌then◌else◌,
}
use vk_agregator.Base.Eq.{◌==◌, text_key, uuid_key}
use vk_agregator.Base.Dict.{lookup}
use vk_agregator.Base.Action.{
  Action, ok, err, pure, chain-by, chain-err, chain_ok, webhook_invalid, ◌>>=◌, ◌>>◌,
}
use vk_agregator.Base.Preserves.{
  Preserves, if-Preserves, then-Preserves, chain-Preserves, raise-Preserves, pure-Preserves,
}
use vk_agregator.Domain.Payment.{PaymentEvent, PaymentIntent, ProviderPayment}
use vk_agregator.Billing.Service.{Service}
use vk_agregator.Tx.{run_in_tx_ok, run_in_tx-Preserves}
use vk_agregator.Payments.Repo.{is_processed, get_intent_by_provider_payment_id}
use vk_agregator.Payments.Repo.Events.{get_event_by_id, mark_event_processed}
use vk_agregator.Payments.Books.{Books, Call, on_payments, run_payment_tx}
use vk_agregator.Payments.Provider.{verified_provider_payment_for_event}
use vk_agregator.Payments.Settlement.{ApplyResult, nothing_applied, apply_provider_payment}
use vk_agregator.Payments.Webhooks.{process_event, settle_event, ack_inbox_event}
use vk_agregator.Payments.Webhooks.Marked.{
  IsProcessedAt, get_event_found, get_event_missing, get_event_processed, mark-IsProcessedAt,
  is_silent, IsStill, ack_again, ack-IsProcessedAt,
}

module _ (uuid_string : Uuid → String) (billing : Service) where
  abbrev marks : Call → PaymentEvent → ApplyResult → Action Books ApplyResult
  marks c event result = on_payments (mark_event_processed c.stored event.id c.clock) >> pure result

  abbrev applies : Call → PaymentEvent → ProviderPayment → PaymentIntent → Action Books ApplyResult
  applies c event payment intent =
      apply_provider_payment uuid_string billing c intent payment >>= marks c event

  -- The transaction of `ProcessEvent` from the stored event on.
  abbrev settles_from :
      Call → PaymentEvent → ProviderPayment → PaymentEvent → Action Books ApplyResult
  settles_from c event payment current =
      if is_processed current
      then pure nothing_applied
      else on_payments (get_intent_by_provider_payment_id event.provider event.provider_payment_id)
        >>= applies c event payment

  settle_again :
      (c : Call) (event : PaymentEvent) (payment : ProviderPayment) (b : Books)
      → IsProcessedAt event.id b
      → settle_event uuid_string billing c event payment b ≡ (ok nothing_applied, b)
  unfolding settle_event
  settle_again c event payment b p =
      let (current, read, done) = get_event_processed event.id b p in
      chain-by (on_payments (get_event_by_id event.id)) (settles_from c event payment) b read
      ∙ rw done refl

  -- What the two transactions of `ProcessEvent` do not break, it does not break.
  process_links :
      {P : Books → Type 0} (c : Call) (event : PaymentEvent)
      → Preserves P (ack_inbox_event c event.id)
      → ((payment : ProviderPayment)
          → Preserves P (settle_event uuid_string billing c event payment))
      → Preserves P (process_event uuid_string billing c event)
  unfolding process_event
  process_links c event acks settles =
      if-Preserves {test = event.id == nil_uuid} (λ _. raise-Preserves webhook_invalid)
        (λ _.
          if-Preserves {test = is_processed event} (λ _. pure-Preserves nothing_applied)
            (λ _.
              if-Preserves {test = not (event.provider == c.provider.code)}
                (λ _. raise-Preserves webhook_invalid)
                (λ _.
                  if-Preserves {test = is_silent event}
                    (λ _. then-Preserves acks (pure-Preserves nothing_applied))
                    (λ _.
                      chain-Preserves (verified_for_event-Preserves c event)
                        (λ payment. run_in_tx-Preserves c.begin c.commit (settles payment))))))

  process_again :
      (c : Call) (event : PaymentEvent) (b : Books)
      → IsProcessedAt event.id b
      → Preserves (IsStill b) (process_event uuid_string billing c event)
  process_again c event b p = process_links c event (ack_again c event.id b p) settles
    where
      settles :
          (payment : ProviderPayment)
          → Preserves (IsStill b) (settle_event uuid_string billing c event payment)
      settles payment = record {
        kept = λ s same.
            subst (λ t. (settle_event uuid_string billing c event payment t).1 ≡ b) (sym same)
              (ap (λ t. t.1) (settle_again c event payment b p));
      }

  marked :
      (c : Call) (event : PaymentEvent) (result answer : ApplyResult) (b : Books)
      → (marks c event result b).0 ≡ ok answer
      → IsProcessedAt event.id (marks c event result b).1
  marked c event result answer b went =
      let mark = on_payments (mark_event_processed c.stored event.id c.clock) in
      let (_, fine, after) = chain_ok mark (λ _. pure result) b answer went in
      subst (IsProcessedAt event.id) (ap (λ t. t.1) (sym after))
        (mark-IsProcessedAt c.stored event.id c.clock b fine)

  settles_from-IsProcessedAt :
      (c : Call) (event current : PaymentEvent) (payment : ProviderPayment) (result : ApplyResult)
      (b : Books)
      → lookup event.id b.payments.events_by_id ≡ some current
      → (settles_from c event payment current b).0 ≡ ok result
      → IsProcessedAt event.id (settles_from c event payment current b).1
  settles_from-IsProcessedAt c event current payment result b found went =
      elim (Bool-cases (is_processed current)) [
        | inl done ↦ rw done (rw found done)
        | inr waiting ↦
            let finds =
              on_payments
                (get_intent_by_provider_payment_id event.provider event.provider_payment_id) in
            let same : settles_from c event payment current b
                ≡ (finds >>= applies c event payment) b =
              rw waiting refl in
            let (intent, _, then_) =
              chain_ok finds (applies c event payment) b result (ap (λ t. t.0) (sym same) ∙ went) in
            let applied = apply_provider_payment uuid_string billing c intent payment in
            let (answer, _, last) =
              chain_ok applied (marks c event) (finds b).1 result
                (ap (λ t. t.0) (sym (same ∙ then_)) ∙ went) in
            subst (IsProcessedAt event.id) (ap (λ t. t.1) (sym (same ∙ then_ ∙ last))) (
              marked c event answer result (applied (finds b).1).1
                (ap (λ t. t.0) (sym (same ∙ then_ ∙ last)) ∙ went))
      ]

  settle-IsProcessedAt :
      (c : Call) (event : PaymentEvent) (payment : ProviderPayment) (result : ApplyResult)
      (b : Books)
      → (settle_event uuid_string billing c event payment b).0 ≡ ok result
      → IsProcessedAt event.id (settle_event uuid_string billing c event payment b).1
  unfolding settle_event
  settle-IsProcessedAt c event payment result b went =
      let reads = on_payments (get_event_by_id event.id) in
      elim (Option-cases (lookup event.id b.payments.events_by_id)) [
        | inl missing ↦
            let lost =
              chain-err reads (settles_from c event payment) b
                (get_event_missing event.id b missing) in
            absurd (ground (arith, ap (λ t. t.0) (sym lost) ∙ went))
        | inr (current, found) ↦
            let goes =
              chain-by reads (settles_from c event payment) b
                (get_event_found event.id current b found) in
            subst (IsProcessedAt event.id) (ap (λ t. t.1) (sym goes)) (
              settles_from-IsProcessedAt c event current payment result b found
                (ap (λ t. t.0) (sym goes) ∙ went))
      ]

  abbrev acts : Call → PaymentEvent → Action Books ApplyResult
  acts c event =
      if is_silent event
      then ack_inbox_event c event.id >> pure nothing_applied
      else verified_provider_payment_for_event c event >>= λ payment.
          run_payment_tx c (settle_event uuid_string billing c event payment)

  process_acts :
      (c : Call) (event : PaymentEvent) (b : Books)
      → event.id == nil_uuid ≡ false
      → is_processed event ≡ false
      → event.provider == c.provider.code ≡ true
      → process_event uuid_string billing c event b ≡ acts c event b
  unfolding process_event
  process_acts c event b set waiting ours = rw set (rw waiting (rw ours refl))

  acts-IsProcessedAt :
      (c : Call) (event : PaymentEvent) (result : ApplyResult) (b : Books)
      → (acts c event b).0 ≡ ok result
      → IsProcessedAt event.id (acts c event b).1
  acts-IsProcessedAt c event result b went = elim (Bool-cases (is_silent event)) [
    | inl silent ↦
        let ack = ack_inbox_event c event.id in
        let same : acts c event b ≡ (ack >> pure nothing_applied) b = rw silent refl in
        let (_, fine, after) =
          chain_ok ack (λ _. pure nothing_applied) b result (ap (λ t. t.0) (sym same) ∙ went) in
        subst (IsProcessedAt event.id) (ap (λ t. t.1) (sym (same ∙ after)))
          (ack-IsProcessedAt c event.id b fine)
    | inr loud ↦
        let verified = verified_provider_payment_for_event c event in
        let runs = λ (payment : ProviderPayment).
          run_payment_tx c (settle_event uuid_string billing c event payment) in
        let same : acts c event b ≡ (verified >>= runs) b = rw loud refl in
        let (payment, _, after) =
          chain_ok verified runs b result (ap (λ t. t.0) (sym same) ∙ went) in
        let ran =
          run_in_tx_ok c.begin c.commit (settle_event uuid_string billing c event payment)
            (verified b).1 result (ap (λ t. t.0) (sym (same ∙ after)) ∙ went) in
        subst (IsProcessedAt event.id) (ap (λ t. t.1) (sym (same ∙ after ∙ ran))) (
          settle-IsProcessedAt c event payment result (verified b).1
            (ap (λ t. t.0) (sym (same ∙ after ∙ ran)) ∙ went))
  ]

  process_unset :
      (c : Call) (event : PaymentEvent) (b : Books)
      → event.id == nil_uuid ≡ true
      → process_event uuid_string billing c event b ≡ (err webhook_invalid, b)
  unfolding process_event
  process_unset c event b unset = rw unset refl

  process_given :
      (c : Call) (event : PaymentEvent) (b : Books)
      → event.id == nil_uuid ≡ false
      → is_processed event ≡ true
      → process_event uuid_string billing c event b ≡ (ok nothing_applied, b)
  unfolding process_event
  process_given c event b set done = rw set (rw done refl)

  process_foreign :
      (c : Call) (event : PaymentEvent) (b : Books)
      → event.id == nil_uuid ≡ false
      → is_processed event ≡ false
      → event.provider == c.provider.code ≡ false
      → process_event uuid_string billing c event b ≡ (err webhook_invalid, b)
  unfolding process_event
  process_foreign c event b set waiting foreign = rw set (rw waiting (rw foreign refl))

  -- An event takes effect once: where `ProcessEvent` has answered for an event without an error,
  -- processing the same event again changes nothing, whatever the provider, the database and the
  -- clock answer then.
  pub process-once :
      (c c' : Call) (event : PaymentEvent) (result : ApplyResult) (b : Books)
      → let t = process_event uuid_string billing c event b in
        t.0 ≡ ok result → (process_event uuid_string billing c' event t.1).1 ≡ t.1
  process-once c c' event result b went = elim (Bool-cases (event.id == nil_uuid)) [
    | inl unset ↦
        absurd (ground (arith, ap (λ t. t.0) (sym (process_unset c event b unset)) ∙ went))
    | inr set ↦ elim (Bool-cases (is_processed event)) [
      | inl done ↦ ap (λ t. t.1) (process_given c' event _ set done)
      | inr waiting ↦ elim (Bool-cases (event.provider == c.provider.code)) [
        | inr foreign ↦
            let lost = process_foreign c event b set waiting foreign in
            absurd (ground (arith, ap (λ t. t.0) (sym lost) ∙ went))
        | inl ours ↦
            let goes = process_acts c event b set waiting ours in
            let done =
              subst (IsProcessedAt event.id) (ap (λ t. t.1) (sym goes))
                (acts-IsProcessedAt c event result b (ap (λ t. t.0) (sym goes) ∙ went)) in
            (process_again c' event (process_event uuid_string billing c event b).1 done).kept _
              refl
      ]
    ]
  ]
