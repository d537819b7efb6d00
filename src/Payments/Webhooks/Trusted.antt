-- ===== src/Payments/Webhooks/Trusted.antt =====
-- A webhook or an operator's call credits what the provider's own answer says is paid
-- (service/paymentservice/webhook_processor.go).
use vk_agregator.Base.{
  ◌≡◌, ◌≢◌, ◌⊎◌, refl, ap, ◌∙◌, inl, inr, String, not, ◌||◌, none, some, Uuid, arith, Bool-cases,
  Option-cases,
}
use vk_agregator.Base.Eq.{◌==◌, text_key, uuid_key}
use vk_agregator.Base.Dict.{lookup}
use vk_agregator.Base.Text.{trim_space}
use vk_agregator.Base.Action.{
  Action, Result, ok, err, Error, not_found, webhook_unsupported, webhook_unverified,
  webhook_mismatch, of_result, raise, chain-err, raise_if, Keeps, chain-state, chain-by,
  Result-cases, ◌>>=◌, ◌>>◌,
}
use vk_agregator.Domain.Payment.{
  IntentStatus, intent_status_beq, intent_status_valid, PaymentIntent, ProviderPayment,
}
use vk_agregator.Billing.Service.{Service}
use vk_agregator.Tx.{run_in_tx-cases}
use vk_agregator.Payments.Books.{Books, Call, on_payments, run_payment_tx}
use vk_agregator.Payments.Repo.{get_intent_by_id}
use vk_agregator.Payments.Provider.{verified_provider_payment, validate_provider_payment}
use vk_agregator.Payments.Settlement.{apply_provider_payment}
use vk_agregator.Payments.Settlement.Verified.{IsPaidFor, apply-IsPaidFor}
use vk_agregator.Payments.Webhooks.{settle_intent, sync_intent}

pub get_intent_found :
    (id : Uuid) (intent : PaymentIntent) (b : Books)
    → lookup id b.payments.intents_by_id ≡ some intent
    → on_payments (get_intent_by_id id) b ≡ (ok intent, b)
unfolding get_intent_by_id
get_intent_found id intent b found = ground arith

get_intent_missing :
    (id : Uuid) (b : Books)
    → lookup id b.payments.intents_by_id ≡ none
    → on_payments (get_intent_by_id id) b ≡ (err not_found, b)
unfolding get_intent_by_id
get_intent_missing id b missing = ground arith

-- A read leaves the books as they are.
get_intent_by_id-Keeps : (id : Uuid) → Keeps (λ t. t) (on_payments (get_intent_by_id id))
unfolding get_intent_by_id
get_intent_by_id-Keeps id b = ground arith

validate-cases :
    (name : String) (payment : ProviderPayment)
    → (validate_provider_payment name payment ≡ err webhook_mismatch)
      ⊎ (validate_provider_payment name payment ≡ ok payment)
unfolding validate_provider_payment
validate-cases name payment =
    elim (Bool-cases (trim_space payment.provider_payment_id == trim_space name)) [
      | inr differs ↦ inl (rw differs refl)
      | inl names ↦
          elim (Bool-cases (
            intent_status_beq payment.status IntentStatus.unset
            || not (intent_status_valid payment.status))) [
              | inl unknown ↦ inl (rw names (rw unknown refl))
              | inr known ↦ inr (rw names (rw known refl))
            ]
    ]

-- What is made of an answer of the provider.
abbrev judged : String → Result ProviderPayment → Action Books ProviderPayment
judged name (ok payment) = of_result (validate_provider_payment name payment)
judged name (err e) = raise webhook_unverified

verified-cases :
    (c : Call) (name : String) (b : Books)
    → ((e : Error) × (verified_provider_payment c name b ≡ (err e, b)))
      ⊎ ((payment : ProviderPayment) × (c.provider.get_payment name ≡ ok payment)
          × (verified_provider_payment c name b ≡ (ok payment, b)))
unfolding verified_provider_payment
verified-cases c name b = elim (Result-cases (c.provider.get_payment name)) [
  | inr (e, h) ↦ inl (webhook_unverified, ap (λ r. judged name r b) h)
  | inl (payment, h) ↦ elim (validate-cases name payment) [
    | inl bad ↦ inl (webhook_mismatch, ap (λ r. judged name r b) h ∙ ap (λ r. (r, b)) bad)
    | inr good ↦ inr (payment, h, ap (λ r. judged name r b) h ∙ ap (λ r. (r, b)) good)
  ]
]

module _ (uuid_string : Uuid → String) (billing : Service) where
  settle_intent_found :
      (c : Call) (id : Uuid) (payment : ProviderPayment) (intent : PaymentIntent) (b : Books)
      → lookup id b.payments.intents_by_id ≡ some intent
      → settle_intent uuid_string billing c id payment b
        ≡ apply_provider_payment uuid_string billing c intent payment b
  unfolding settle_intent
  settle_intent_found c id payment intent b found =
      chain-by (on_payments (get_intent_by_id id))
        (λ current. apply_provider_payment uuid_string billing c current payment) b
        (get_intent_found id intent b found)

  -- `SyncIntent` from the verified payment on, and from the intent on.
  abbrev settles : Call → Uuid → ProviderPayment → Action Books PaymentIntent
  settles c id payment =
      run_payment_tx c (settle_intent uuid_string billing c id payment)
      >> on_payments (get_intent_by_id id)

  abbrev asks : Call → Uuid → PaymentIntent → Action Books PaymentIntent
  asks c id intent =
      raise_if (trim_space intent.provider_payment_id == "") webhook_unsupported
      >> (verified_provider_payment c intent.provider_payment_id >>= λ payment.
          settles c id payment)

  sync_unfolds :
      (c : Call) (id : Uuid) (b : Books)
      → sync_intent uuid_string billing c id b ≡ (on_payments (get_intent_by_id id) >>= asks c id) b
  unfolding sync_intent
  sync_unfolds c id b = refl

  settles-cases :
      (c : Call) (id : Uuid) (payment : ProviderPayment) (intent : PaymentIntent) (b : Books)
      → lookup id b.payments.intents_by_id ≡ some intent
      → ((settles c id payment b).1 ≡ b)
        ⊎ ((settles c id payment b).1
            ≡ (apply_provider_payment uuid_string billing c intent payment b).1)
  settles-cases c id payment intent b found =
      let settled = settle_intent uuid_string billing c id payment in
      let read =
        chain-state (run_payment_tx c settled) (λ _. on_payments (get_intent_by_id id)) b
          (λ _. get_intent_by_id-Keeps id) in
      elim (run_in_tx-cases c.begin c.commit settled b) [
        | inl undone ↦ inl (read ∙ undone)
        | inr went ↦
            inr (read ∙ went ∙ ap (λ t. t.1) (settle_intent_found c id payment intent b found))
      ]

  asks-cases :
      (c : Call) (id : Uuid) (intent : PaymentIntent) (b : Books)
      → lookup id b.payments.intents_by_id ≡ some intent
      → ((asks c id intent b).1 ≡ b)
        ⊎ ((payment : ProviderPayment) × (c.provider.get_payment intent.provider_payment_id
              ≡ ok payment)
            × ((asks c id intent b).1
                ≡ (apply_provider_payment uuid_string billing c intent payment b).1))
  asks-cases c id intent b found =
      let verified = verified_provider_payment c intent.provider_payment_id in
      elim (Bool-cases (trim_space intent.provider_payment_id == "")) [
        | inl blank ↦ inl (rw blank refl)
        | inr named ↦ elim (verified-cases c intent.provider_payment_id b) [
          | inl (e, h) ↦ inl (rw named (ap (λ t. t.1) (chain-err verified (settles c id) b h)))
          | inr (payment, said, h) ↦
              let goes = chain-by verified (settles c id) b h in
              elim (settles-cases c id payment intent b found) [
                | inl same ↦ inl (rw named (ap (λ t. t.1) goes ∙ same))
                | inr applied ↦ inr (payment, said, rw named (ap (λ t. t.1) goes ∙ applied))
              ]
        ]
      ]

  -- What `SyncIntent` leaves: the books as they were, or what the provider's answer makes of them.
  pub sync-cases :
      (c : Call) (id : Uuid) (b : Books)
      → ((sync_intent uuid_string billing c id b).1 ≡ b)
        ⊎ ((intent : PaymentIntent) × (payment : ProviderPayment) × (lookup id
                b.payments.intents_by_id
              ≡ some intent)
            × (c.provider.get_payment intent.provider_payment_id ≡ ok payment)
            × ((sync_intent uuid_string billing c id b).1
                ≡ (apply_provider_payment uuid_string billing c intent payment b).1))
  sync-cases c id b =
      let reads = on_payments (get_intent_by_id id) in
      elim (Option-cases (lookup id b.payments.intents_by_id)) [
        | inl missing ↦ inl (
            ap (λ t. t.1)
              (sync_unfolds c id b
                ∙ chain-err reads (asks c id) b (get_intent_missing id b missing)))
        | inr (intent, found) ↦
            let goes =
              sync_unfolds c id b
              ∙ chain-by reads (asks c id) b (get_intent_found id intent b found) in
            elim (asks-cases c id intent b found) [
              | inl same ↦ inl (ap (λ t. t.1) goes ∙ same)
              | inr (payment, said, applied) ↦
                  inr (intent, payment, found, said, ap (λ t. t.1) goes ∙ applied)
            ]
      ]

  -- Credits come only from the provider's own word: where syncing an intent changes the ledger, the
  -- provider has answered for the intent's payment that it has succeeded, is paid and captured,
  -- and is of the intent's amount in the intent's currency; and the intent's status is or may
  -- become that of a success.
  pub sync-IsPaidFor :
      (c : Call) (id : Uuid) (b : Books)
      → (sync_intent uuid_string billing c id b).1.billing ≢ b.billing
      → (intent : PaymentIntent) × (payment : ProviderPayment) × (lookup id b.payments.intents_by_id
          ≡ some intent)
        × (c.provider.get_payment intent.provider_payment_id ≡ ok payment)
        × IsPaidFor intent payment
  sync-IsPaidFor c id b changed = elim (sync-cases c id b) [
    | inl same ↦ absurd (changed (ap (λ t. t.billing) same))
    | inr (intent, payment, found, said, applied) ↦ (
      intent,
      payment,
      found,
      said,
      apply-IsPaidFor uuid_string billing c intent payment b
          (λ same. changed (ap (λ t. t.billing) applied ∙ same)),
    )
  ]
