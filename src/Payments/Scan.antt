-- ===== src/Payments/Scan.antt =====
-- service/paymentservice/webhook_processor.go: `ensureTopupCreditsRefundable`, which walks an account's
-- ledger back to the entry by which a payment's credits came in.
pub mod Whole
use Prim.Native.String.{◌++◌}
use vk_agregator.Base.{
  ℕ, zero, suc, ◌+◌, ◌-◌, String, Bool, true, false, not, ◌&&◌, ◌||◌, Option, none, some, List, [],
  ◌∷◌, Uuid, nil_uuid, ltb, nat_beq, if◌then◌else◌,
}
use vk_agregator.Base.Lists.{length}
use vk_agregator.Base.Text.{trim_space}
use vk_agregator.Base.Eq.{◌==◌, uuid_key, text_key}
use vk_agregator.Base.Int.{ℤ, pos, leb_ℤ, ltb_ℤ, int_beq}
use vk_agregator.Base.Int64.{neg64}
use vk_agregator.Base.Action.{
  Action, Result, ok, err, Error, conflict, invalid_input, forbidden, refund_not_allowed,
  refund_credits_spent, refund_mismatch, other, is_not_found, pure, raise, of_result, raise_if, try,
  ◌>>=◌, ◌>>◌,
}
use vk_agregator.Domain.Billing.{
  currency_credits, LedgerEntryType, LedgerEntryStatus, CreditAccount, LedgerEntry,
}
use vk_agregator.Domain.Payment.{
  IntentStatus, intent_status_beq, RefundStatus, refund_status_beq, refund_status_valid,
  PaymentIntent, PaymentRefund, CreateRefundInput, RefundResult,
}
use vk_agregator.Billing.Repo.{BillingRepo, append_entry, get_account_by_user, list_entries}
use vk_agregator.Billing.Service.{forgive_conflict}
use vk_agregator.Payments.Repo.{get_intent_by_id, update_intent_status}
use vk_agregator.Payments.Repo.Refunds.{
  create_refund, get_refund_by_idempotency_key, set_refund_provider_state,
}
use vk_agregator.Payments.Books.{
  Books, Call, on_payments, on_ledger, run_payment_tx, intent_owner_id, top_up_ledger_key,
  refund_debit_ledger_key, refund_compensate_ledger_key,
}
use vk_agregator.Payments.Receipt.{
  default_string, payment_intent_description, payment_intent_vat_code, payment_intent_subject,
  payment_intent_mode,
}

abbrev pub refund_ledger_scan_page_size : ℕ
refund_ledger_scan_page_size = 200

abbrev pub refund_ledger_scan_max_entries : ℕ
refund_ledger_scan_max_entries = 5000

abbrev is_topup : LedgerEntryType → Bool
is_topup LedgerEntryType.topup = true
is_topup _ = false

abbrev is_committed : LedgerEntryStatus → Bool
is_committed LedgerEntryStatus.committed = true
is_committed _ = false

abbrev is_pending : LedgerEntryStatus → Bool
is_pending LedgerEntryStatus.pending = true
is_pending _ = false

-- The entry by which the payment's credits came in.
abbrev pub is_top_up_of : ℤ → LedgerEntry → Bool
is_top_up_of credits e = is_topup e.entry_type && is_committed e.status && int_beq e.amount credits

-- An entry by which credits went out, or are held.
abbrev pub is_spending : LedgerEntry → Bool
is_spending e = ltb_ℤ e.amount (pos 0) && (is_committed e.status || is_pending e.status)

-- What the entries of a page decide, if anything: `ok` that the credits are there still, or an
-- error.
unfoldable pub scan_page : String → ℤ → List LedgerEntry → Option (Result (Unit {0}))
scan_page key credits [] = none
scan_page key credits (e ∷ es) =
    if e.idempotency_key == key
    then (if is_top_up_of credits e then some (ok tt) else some (err refund_not_allowed))
    else if is_spending e
    then some (err refund_credits_spent)
    else scan_page key credits es

-- The limit of the next page.
abbrev pub page_limit : ℕ → ℕ
page_limit scanned =
    if ltb (refund_ledger_scan_max_entries - scanned) refund_ledger_scan_page_size
    then refund_ledger_scan_max_entries - scanned
    else refund_ledger_scan_page_size

-- The answer of a loop that has no fuel left, which the code never gives.
abbrev pub out_of_fuel : Error
out_of_fuel = other "out of fuel"

-- The loop over pages. A pass that goes on has scanned a whole page, so `scanned` grows with every
-- pass, and as much fuel as there are entries left to scan is enough.
abbrev pub scan_pages : ℕ → Uuid → String → ℤ → ℕ → ℕ → Action BillingRepo (Unit {0})
scan_pages zero account key credits offset scanned = raise out_of_fuel
scan_pages (suc fuel) account key credits offset scanned =
    if not (ltb scanned refund_ledger_scan_max_entries) then raise refund_not_allowed else do
      entries ← list_entries account (page_limit scanned) offset
      if nat_beq (length entries) 0
          then raise refund_not_allowed
          else elim (scan_page key credits entries) [
            | some a ↦ of_result a
            | none ↦
                if ltb (length entries) (page_limit scanned)
                then raise refund_not_allowed
                else scan_pages fuel account key credits (offset + refund_ledger_scan_page_size)
                    (scanned + length entries)
          ]

abbrev pub scan_fuel : ℕ
scan_fuel = suc refund_ledger_scan_max_entries

unfoldable pub ensure_topup_credits_refundable :
    Uuid → PaymentIntent → Action BillingRepo (Unit {0})
ensure_topup_credits_refundable account intent =
    if trim_space intent.provider_payment_id == "" || leb_ℤ intent.credits (pos 0)
    then raise refund_not_allowed
    else scan_pages scan_fuel account (top_up_ledger_key intent.provider intent.provider_payment_id)
        intent.credits 0 0
