-- ===== src/Billing/Repo/History.antt =====
-- Any history of spending calls on a new repository (adapter/storage/memory/billing.go), in any order.
use vk_agregator.Base.{String, ◌≡◌, none, Uuid, arith}
use vk_agregator.Base.Eq.{uuid_key, text_key}
use vk_agregator.Base.Int.{ℤ, pos, ◌-ℤ◌, ◌≤ℤ◌, int_laws}
use vk_agregator.Base.Int64.{InRange}
use vk_agregator.Base.Dict.{lookup}
use vk_agregator.Domain.Billing.{CreditAccount, CreditReservation, LedgerEntry}
use vk_agregator.Billing.{Draw, or_uuid}
use vk_agregator.Billing.Repo.{
  BillingRepo, new_billing_repo, balance, available_locked, append_entry, reserve, capture, release,
  create_account,
}
use vk_agregator.Billing.Repo.Holds.{held, held_nonneg}
use vk_agregator.Billing.Repo.Solvent.{IsSolvent, available_exact, reserve-IsSolvent}
use vk_agregator.Billing.Repo.Settle.{IsWithinHold, capture-IsSolvent, release-IsSolvent}
use vk_agregator.Billing.Repo.Spending.{
  Fits, HasNoHolds, append_entry-IsSolvent, create_account-IsSolvent,
}

module _ (uuid_string : Uuid → String) where
  -- One call, of those that a spending history is made of.
  pub data Spend (r : BillingRepo) : BillingRepo → Type 0 where
    opens :
        (d : Draw) (a : CreditAccount)
        → HasNoHolds (or_uuid a.id d.id) r
        → pos 0 ≤ℤ a.balance_cached
        → InRange a.balance_cached
        → Spend r (create_account uuid_string d a r).1
    tops_up : (d : Draw) (e : LedgerEntry) → Fits e r → Spend r (append_entry d e r).1
    holds :
        (d : Draw) (res : CreditReservation)
        → pos 0 ≤ℤ res.amount
        → lookup (or_uuid res.id d.id) r.reservations ≡ none
        → Spend r (reserve d res r).1
    charges :
        (d : Draw) (id : Uuid) (amount : ℤ) (key : String)
        → IsWithinHold id r amount
        → Spend r (capture d id amount key r).1
    frees : (d : Draw) (id : Uuid) (key : String) → Spend r (release d id key r).1

  pub data History : BillingRepo → Type 0 where
    start : History new_billing_repo
    next : {r s : BillingRepo} → History r → Spend r s → History s

  Spend-IsSolvent :
      (account : Uuid) {r s : BillingRepo} → Spend r s → IsSolvent account r → IsSolvent account s
  Spend-IsSolvent account {r} (opens d a unused p range) v =
      create_account-IsSolvent uuid_string account d a r unused p range v
  Spend-IsSolvent account {r} (tops_up d e fits) v = append_entry-IsSolvent account d e r fits v
  Spend-IsSolvent account {r} (holds d res p fresh) v = reserve-IsSolvent account d res r p fresh v
  Spend-IsSolvent account {r} (charges d id amount key within) v =
      capture-IsSolvent account d id r amount key within v
  Spend-IsSolvent account {r} (frees d id key) v = release-IsSolvent account d id r key v

  pub History-IsSolvent : (account : Uuid) {r : BillingRepo} → History r → IsSolvent account r
  History-IsSolvent account start = omega arith
  History-IsSolvent account (next h s) = Spend-IsSolvent account s (History-IsSolvent account h)

  -- After any history of spending calls that begins empty, failed calls too, an account's available
  -- amount is its balance less its active holds, computed without a wrap, and is never negative.
  -- Holds and opening grants are of zero or more, a capture is of at most its hold, top-ups fit an
  -- int64, and new rows take identifiers that no hold names.
  pub History-available :
      (account : Uuid) {r : BillingRepo}
      → History r
      → (available_locked account r ≡ balance account r -ℤ held account r.reservations)
        × (pos 0 ≤ℤ available_locked account r)
        × (available_locked account r ≤ℤ balance account r)
  History-available account {r} h =
      let s = History-IsSolvent account h in
      let exact = available_exact account r s in
      (
        exact,
        rw exact (omega (int_laws, s.covered)),
        rw exact (omega (int_laws, held_nonneg account r.reservations s.holds_nonneg)),
      )
