-- ===== src/Payments/Books.antt =====
-- service/paymentservice: the pair of repositories that a payment transaction is bound to, what a
-- call takes from outside, and the keys of the ledger entries that payments make.
use Prim.Native.String.{◌++◌}
use vk_agregator.Base.{String, Option, Uuid}
use vk_agregator.Base.Text.{trim_space}
use vk_agregator.Base.Action.{Action, Error}
use vk_agregator.Domain.Billing.{Time}
use vk_agregator.Domain.Payment.{PaymentProviderCode, PaymentProvider, PaymentIntent}
use vk_agregator.Billing.{Draw, or_uuid}
use vk_agregator.Billing.Repo.{BillingRepo}
use vk_agregator.Payments.Repo.{PaymentRepo}
use vk_agregator.Tx.{run_in_tx}

pub record Books : Type 0 where
  pub payments : PaymentRepo
  pub billing : BillingRepo

-- What one call takes from outside: the answers of the payment provider, of the database server to
-- `Begin` and `Commit`, of the processor's and the repository's clock, and of `uuid.New`.
pub record Call : Type 0 where
  pub provider : PaymentProvider
  pub begin : Option Error
  pub commit : Option Error
  pub clock : Time
  pub stored : Time
  pub id : Uuid
  pub account : Draw
  pub entry : Draw

module _ {A : Type 0} where
  -- A method of one repository, on the two.
  abbrev pub on_payments : Action PaymentRepo A → Action Books A
  on_payments m b = let (a, payments) = m b.payments in (a, record b { payments = payments })

  abbrev pub on_ledger : Action BillingRepo A → Action Books A
  on_ledger m b = let (a, billing) = m b.billing in (a, record b { billing = billing })

  -- `RunPaymentTx`, as app/api/core.go and cmd/provider-webhook wire it.
  abbrev pub run_payment_tx : Call → Action Books A → Action Books A
  run_payment_tx c body = run_in_tx c.begin c.commit body

-- `intentOwnerID`
abbrev pub intent_owner_id : PaymentIntent → Uuid
intent_owner_id intent = or_uuid intent.account_id intent.user_id

unfoldable pub top_up_ledger_key : PaymentProviderCode → String → String
top_up_ledger_key provider provider_payment_id =
    "topup:" ++ (provider ++ (":" ++ trim_space provider_payment_id))

module _ (uuid_string : Uuid → String) where
  unfoldable pub refund_debit_ledger_key : PaymentProviderCode → String → Uuid → String
  refund_debit_ledger_key provider provider_payment_id refund =
      "payment_refund_debit:"
      ++ (provider ++ (":" ++ (trim_space provider_payment_id ++ (":" ++ uuid_string refund))))

  unfoldable pub refund_compensate_ledger_key : Uuid → String
  refund_compensate_ledger_key refund = "payment_refund_compensate:" ++ uuid_string refund
