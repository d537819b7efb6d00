-- ===== src/Payments/History/Credited.antt =====
-- A payment is turned into credits once (service/paymentservice/webhook_processor.go).
use mathlib.Core.Path.{subst}
use Prim.Native.String.{◌++◌}
use vk_agregator.Base.{◌≡◌, refl, sym, ap, ◌∙◌, inl, inr, true, false, Uuid, String, arith}
use vk_agregator.Base.Eq.{◌==◌, text_key, uuid_key}
use vk_agregator.Base.Int.{pos, ◌≤ℤ◌}
use vk_agregator.Base.Text.{trim_space, prefixed_is_set}
use vk_agregator.Base.Action.{ok, pure, chain_ok, chain-cases, chain-by, ◌>>◌}
use vk_agregator.Domain.Payment.{PaymentIntent, ProviderPayment}
use vk_agregator.Billing.{user_currency_key}
use vk_agregator.Billing.Service.{Service, account_owner_id}
use vk_agregator.Billing.Service.Grants.{grant_with_owner-known, granted-again}
use vk_agregator.Billing.Service.Granted.{IsGranted, IsGranted-IsLasting}
use vk_agregator.Billing.Service.Lasting.{IsLasting, grant_with_owner-Preserves}
use vk_agregator.Payments.Books.{Books, Call, intent_owner_id, top_up_ledger_key}
use vk_agregator.Payments.Provider.{is_succeeded}
use vk_agregator.Payments.Settlement.{
  ApplyResult, apply_provider_payment, grant_top_up, move_status,
}
use vk_agregator.Payments.Settlement.Verified.{
  IsPaidFor, settle, apply_allowed, apply-cases, move_status-billing,
}
use vk_agregator.Payments.Stable.{IsStable}
use vk_agregator.Payments.History.{Steps, steps-Preserves}

module _ (uuid_string : Uuid → String) (billing : Service) where
  -- The ledger key of a payment, and the key of the account that it goes to.
  abbrev pub credit_key : PaymentIntent → String
  credit_key intent = top_up_ledger_key intent.provider intent.provider_payment_id

  abbrev pub account_key : PaymentIntent → String
  account_key intent =
      user_currency_key uuid_string (account_owner_id intent.user_id (intent_owner_id intent))
        billing.currency

  abbrev pub IsCredited : PaymentIntent → Books → Type 0
  IsCredited intent b = IsGranted (credit_key intent) (account_key intent) b.billing

  lasting :
      (intent : PaymentIntent)
      → IsLasting uuid_string (IsGranted (credit_key intent) (account_key intent))
  lasting intent = IsGranted-IsLasting uuid_string (credit_key intent) (account_key intent)

  IsCredited-IsStable : (intent : PaymentIntent) → IsStable uuid_string billing (IsCredited intent)
  IsCredited-IsStable intent = record {
    moves = λ now id from to h. record { kept = λ b p. p };
    marks = λ now id at. record { kept = λ b p. p };
    receives = λ id now event. record { kept = λ b p. p };
    opens = λ id now refund. record { kept = λ b p. p };
    answers = λ now id name status. record { kept = λ b p. p };
    grants = λ d d' user account amount key reason. record {
      kept = λ b p.
          (grant_with_owner-Preserves uuid_string (lasting intent) billing d d' user account amount
              key reason).kept
            b.billing p;
    };
    appends = λ d e. record { kept = λ b p. ((lasting intent).appends d e).kept b.billing p };
  }

  key_is_set : (intent : PaymentIntent) → credit_key intent == "" ≡ false
  unfolding top_up_ledger_key
  key_is_set intent =
      prefixed_is_set "topup:" (intent.provider ++ (":" ++ trim_space intent.provider_payment_id))
        (omega arith)

  top_up-IsCredited :
      (c : Call) (intent : PaymentIntent) (b : Books)
      → pos 1 ≤ℤ intent.credits
      → (grant_top_up uuid_string billing c intent b).0 ≡ ok tt
      → IsCredited intent (grant_top_up uuid_string billing c intent b).1
  unfolding grant_top_up
  top_up-IsCredited c intent b p granted =
      let (_, used, known) =
        grant_with_owner-known uuid_string billing c.account c.entry intent.user_id
          (intent_owner_id intent) intent.credits (credit_key intent)
          ("payment top-up via " ++ intent.provider) b.billing p granted in
      (used, known)

  credited-again :
      (c : Call) (intent : PaymentIntent) (b : Books)
      → IsCredited intent b
      → grant_top_up uuid_string billing c intent b ≡ (ok tt, b)
  unfolding grant_top_up
  credited-again c intent b (used, known) =
      ap (λ t. (t.0, record b { billing = t.1 }))
        (granted-again uuid_string billing c.account c.entry intent.user_id (intent_owner_id intent)
          intent.credits (credit_key intent) ("payment top-up via " ++ intent.provider) b.billing
          (key_is_set intent) known used)

  paid_settles :
      (c : Call) (intent : PaymentIntent) (payment : ProviderPayment) (result : ApplyResult)
      (b : Books)
      → is_succeeded payment.status ≡ true
      → settle uuid_string billing c intent payment result b
        ≡ (grant_top_up uuid_string billing c intent
              >> pure (record result { topup_granted = result.status_changed }))
            b
  paid_settles c intent payment result b paid = rw paid refl

  -- A payment that is applied as paid is credited.
  apply-IsCredited :
      (c : Call) (intent : PaymentIntent) (payment : ProviderPayment) (result : ApplyResult)
      (b : Books)
      → pos 1 ≤ℤ intent.credits
      → IsPaidFor intent payment
      → let t = apply_provider_payment uuid_string billing c intent payment b in
        t.0 ≡ ok result → IsCredited intent t.1
  apply-IsCredited c intent payment result b p (paid, taken, captured, matched, may) went =
      let moves = move_status c intent payment.status in
      let open_ =
        apply_allowed uuid_string billing c intent payment b may (ground arith) (ground arith) in
      let (moved, _, settled) =
        chain_ok moves (settle uuid_string billing c intent payment) b result
          (ap (λ t. t.0) (sym open_) ∙ went) in
      let grants = grant_top_up uuid_string billing c intent in
      let granted = paid_settles c intent payment moved (moves b).1 paid in
      let (_, fine, after) =
        chain_ok grants (λ _. pure (record moved { topup_granted = moved.status_changed }))
          (moves b).1 result (ap (λ t. t.0) (sym (open_ ∙ settled ∙ granted)) ∙ went) in
      subst (IsCredited intent) (ap (λ t. t.1) (sym (open_ ∙ settled ∙ granted ∙ after)))
        (top_up-IsCredited c intent (moves b).1 p fine)

  -- What is credited already is not credited again.
  apply-credited :
      (c : Call) (intent : PaymentIntent) (payment : ProviderPayment) (b : Books)
      → IsCredited intent b
      → (apply_provider_payment uuid_string billing c intent payment b).1.billing ≡ b.billing
  apply-credited c intent payment b credited =
      elim (apply-cases uuid_string billing c intent payment b) [
        | inl same ↦ same
        | inr (paid, taken, captured, matched, may) ↦
            let moves = move_status c intent payment.status in
            let kept = move_status-billing c intent payment.status b in
            let open_ =
              apply_allowed uuid_string billing c intent payment b may (ground arith)
                (ground arith) in
            elim (chain-cases moves (settle uuid_string billing c intent payment) b) [
              | inl (e, _, failed) ↦ ap (λ t. t.1.billing) (open_ ∙ failed) ∙ kept
              | inr (moved, _, settled) ↦
                  let again = credited-again c intent (moves b).1 (
                    subst (IsGranted (credit_key intent) (account_key intent)) (sym kept)
                      credited) in
                  ap (λ t. t.1.billing)
                    (open_
                      ∙ settled
                      ∙ paid_settles c intent payment moved (moves b).1 paid
                      ∙ chain-by (grant_top_up uuid_string billing c intent)
                          (λ _. pure (record moved { topup_granted = moved.status_changed }))
                          (moves b).1 again)
                  ∙ kept
            ]
      ]

  -- A payment is turned into credits once. Say that the provider's answer for an intent has been
  -- applied without an error, as money paid, and the intent has credits to give. Then, after any
  -- history of webhooks, syncs, cancellations and refunds, no answer of the provider for an intent
  -- of that provider payment and that account, whatever its status, changes the ledger.
  pub credited-once :
      (c c' : Call) (intent intent' : PaymentIntent) (payment payment' : ProviderPayment)
      (result : ApplyResult) (b t : Books)
      → pos 1 ≤ℤ intent.credits
      → IsPaidFor intent payment
      → (apply_provider_payment uuid_string billing c intent payment b).0 ≡ ok result
      → Steps uuid_string billing
          (apply_provider_payment uuid_string billing c intent payment b).1
          t
      → credit_key intent ≡ credit_key intent'
      → account_key intent ≡ account_key intent'
      → (apply_provider_payment uuid_string billing c' intent' payment' t).1.billing ≡ t.billing
  credited-once c c' intent intent' payment payment' result b t p paid went history same_key
        same_account =
      apply-credited c' intent' payment' t (
        subst (λ key. IsGranted key (account_key intent') t.billing) same_key
          (subst (λ owner. IsGranted (credit_key intent) owner t.billing) same_account
            (steps-Preserves uuid_string billing (IsCredited-IsStable intent) history
              (apply-IsCredited c intent payment result b p paid went))))
