-- ===== src/Payments/Settlement/Verified.antt =====
-- Which payments turn into credits (service/paymentservice/webhook_processor.go).
use vk_agregator.Base.{
  ◌≡◌, ◌≢◌, ◌⊎◌, if◌then◌else◌, refl, ap, ◌∙◌, inl, inr, String, Bool, true, false, not, ◌&&◌, ◌||◌,
  Uuid, arith, Bool-cases,
}
use vk_agregator.Base.Action.{Action, chain-state, pure, ◌>>=◌, ◌>>◌}
use vk_agregator.Domain.Payment.{
  IntentStatus, intent_status_beq, intent_can_transition_to, PaymentIntent, ProviderPayment,
}
use vk_agregator.Billing.Service.{Service}
use vk_agregator.Payments.Provider.{is_succeeded}
use vk_agregator.Payments.Books.{Books, Call}
use vk_agregator.Payments.Settlement.{
  ApplyResult, move_status, same_money, grant_top_up, apply_provider_payment,
}

abbrev pub is_allowed : PaymentIntent → ProviderPayment → Bool
is_allowed intent payment =
    intent_status_beq intent.status payment.status
    || intent_can_transition_to intent.status payment.status

pub move_status-billing :
    (c : Call) (intent : PaymentIntent) (target : IntentStatus) (b : Books)
    → (move_status c intent target b).1.billing ≡ b.billing
unfolding move_status
move_status-billing c intent target b = ground arith

-- What the provider must have said for a payment to turn into credits.
abbrev pub IsPaidFor : PaymentIntent → ProviderPayment → Type 0
IsPaidFor intent payment =
    (is_succeeded payment.status ≡ true)
    × (payment.paid ≡ true)
    × (payment.captured ≡ true)
    × (same_money intent payment ≡ true)
    × (is_allowed intent payment ≡ true)

abbrev pub unproven : ProviderPayment → Bool
unproven payment = is_succeeded payment.status && not (payment.paid && payment.captured)

abbrev pub mismatched : PaymentIntent → ProviderPayment → Bool
mismatched intent payment = is_succeeded payment.status && not (same_money intent payment)

module _ (uuid_string : Uuid → String) (billing : Service) where
  apply-forbidden :
      (c : Call) (intent : PaymentIntent) (payment : ProviderPayment) (b : Books)
      → is_allowed intent payment ≡ false
      → (apply_provider_payment uuid_string billing c intent payment b).1 ≡ b
  unfolding apply_provider_payment
  apply-forbidden c intent payment b h = rw h refl

  apply-unproven :
      (c : Call) (intent : PaymentIntent) (payment : ProviderPayment) (b : Books)
      → unproven payment ≡ true
      → (apply_provider_payment uuid_string billing c intent payment b).1 ≡ b
  unfolding apply_provider_payment
  apply-unproven c intent payment b h = rw h (ground arith)

  apply-mismatched :
      (c : Call) (intent : PaymentIntent) (payment : ProviderPayment) (b : Books)
      → mismatched intent payment ≡ true
      → (apply_provider_payment uuid_string billing c intent payment b).1 ≡ b
  unfolding apply_provider_payment
  apply-mismatched c intent payment b h = rw h (ground arith)

  -- What is left of `applyProviderPayment` behind its checks.
  abbrev pub settle :
      Call → PaymentIntent → ProviderPayment → ApplyResult → Action Books ApplyResult
  settle c intent payment result =
      if is_succeeded payment.status
      then (do
        grant_top_up uuid_string billing c intent
        pure (record result { topup_granted = result.status_changed }))
      else pure result

  pub apply_allowed :
      (c : Call) (intent : PaymentIntent) (payment : ProviderPayment) (b : Books)
      → is_allowed intent payment ≡ true
      → unproven payment ≡ false
      → mismatched intent payment ≡ false
      → apply_provider_payment uuid_string billing c intent payment b
        ≡ (move_status c intent payment.status >>= settle c intent payment) b
  unfolding apply_provider_payment
  apply_allowed c intent payment b h u m = rw h (rw u (rw m refl))

  settle_unpaid :
      (c : Call) (intent : PaymentIntent) (payment : ProviderPayment) (b : Books)
      → is_succeeded payment.status ≡ false
      → ((move_status c intent payment.status >>= settle c intent payment) b).1
        ≡ (move_status c intent payment.status b).1
  settle_unpaid c intent payment b h =
      chain-state (move_status c intent payment.status) (settle c intent payment) b
        (λ result t. rw h refl)

  pub apply-cases :
      (c : Call) (intent : PaymentIntent) (payment : ProviderPayment) (b : Books)
      → ((apply_provider_payment uuid_string billing c intent payment b).1.billing ≡ b.billing)
        ⊎ IsPaidFor intent payment
  apply-cases c intent payment b = elim (Bool-cases (is_allowed intent payment)) [
    | inr barred ↦ inl (ap (λ t. t.billing) (apply-forbidden c intent payment b barred))
    | inl may ↦ elim (Bool-cases (unproven payment)) [
      | inl u ↦ inl (ap (λ t. t.billing) (apply-unproven c intent payment b u))
      | inr proven ↦ elim (Bool-cases (mismatched intent payment)) [
        | inl m ↦ inl (ap (λ t. t.billing) (apply-mismatched c intent payment b m))
        | inr matched ↦ elim (Bool-cases (is_succeeded payment.status)) [
          | inr unpaid ↦ inl (
              ap (λ t. t.1.billing) (apply_allowed c intent payment b may proven matched)
              ∙ ap (λ t. t.billing) (settle_unpaid c intent payment b unpaid)
              ∙ move_status-billing c intent payment.status b)
          | inl paid ↦ inr (paid, ground arith, ground arith, ground arith, may)
        ]
      ]
    ]
  ]

  -- `applyProviderPayment` gives credits only for money: where it changes the ledger, the payment
  -- has succeeded, is paid and captured, is of the intent's amount in the intent's currency, and
  -- the intent's status is or may become that of a success.
  pub apply-IsPaidFor :
      (c : Call) (intent : PaymentIntent) (payment : ProviderPayment) (b : Books)
      → (apply_provider_payment uuid_string billing c intent payment b).1.billing ≢ b.billing
      → IsPaidFor intent payment
  apply-IsPaidFor c intent payment b changed = elim (apply-cases c intent payment b) [
    | inl same ↦ absurd (changed same)
    | inr paid ↦ paid
  ]
