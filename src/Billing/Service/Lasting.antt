-- ===== src/Billing/Service/Lasting.antt =====
-- A property of the ledger repository that neither an entry nor a new account breaks
-- (service/billingservice).
use mathlib.Core.Path.{subst}
use vk_agregator.Base.{sym, none, Uuid, String, arith}
use vk_agregator.Base.Eq.{◌==◌, uuid_key, text_key}
use vk_agregator.Base.Int.{ℤ}
use vk_agregator.Base.Action.{Action, modify, Error, other, is_conflict, is_not_found}
use vk_agregator.Base.Preserves.{
  Preserves, chain-Preserves, then-Preserves, if-Preserves, pure-Preserves, raise_if-Preserves,
  gets-Preserves, try-Preserves, result-Preserves, raise-Preserves, preserving,
}
use vk_agregator.Domain.Billing.{CreditAccount, LedgerEntry, LedgerEntryType}
use vk_agregator.Billing.{Draw, or_uuid}
use vk_agregator.Billing.Repo.{
  BillingRepo, append_entry, get_account_by_user, create_account, opening_entry, store_account,
  grant_opening, balance,
}
use vk_agregator.Billing.Service.{
  Service, ensure_account_with, grant_with_owner, forgive_conflict, account_owner_id, new_account,
  credit_entry, create_or_read,
}
use vk_agregator.Billing.Service.Idempotent.{forgive_conflict-state}

pub forgive_conflict-Preserves :
    {P : BillingRepo → Type 0} {m : Action BillingRepo (Unit {0})}
    → Preserves P m
    → Preserves P (forgive_conflict m)
forgive_conflict-Preserves {P} {m} first = record {
  kept = λ r p. subst P (sym (forgive_conflict-state m r)) (first.kept r p);
}

module _ (uuid_string : Uuid → String) where
  pub record IsLasting (Q : BillingRepo → Type 0) : Type 0 where
    pub appends : (d : Draw) (e : LedgerEntry) → Preserves Q (append_entry d e)
    pub opens : (a : CreditAccount) (r : BillingRepo) → Q r → Q (store_account uuid_string a r)

  reads_account :
      {Q : BillingRepo → Type 0} (user : Uuid) (currency : String)
      → Preserves Q (get_account_by_user uuid_string user currency)
  unfolding get_account_by_user
  reads_account user currency = record { kept = λ r q. ground (arith, q) }

  module _ {Q : BillingRepo → Type 0} (lasting : IsLasting Q) (s : Service) where
    grant_opening-Preserves :
        (d : Draw) (a : CreditAccount) (grant : ℤ)
        → Preserves Q (grant_opening uuid_string d a grant)
    unfolding grant_opening append_entry
    grant_opening-Preserves d a grant =
        then-Preserves (lasting.appends d (opening_entry uuid_string a grant))
          (gets-Preserves (λ r. record a { balance_cached = balance a.id r }))

    store_account-Preserves :
        (a : CreditAccount) → Preserves Q (modify (store_account uuid_string a))
    store_account-Preserves a = record { kept = λ r q. lasting.opens a r q }

    create_account-Preserves :
        (d : Draw) (a : CreditAccount) → Preserves Q (create_account uuid_string d a)
    unfolding create_account
    create_account-Preserves d a =
        search (preserving, store_account-Preserves, grant_opening-Preserves) depth 16

    create_or_read-Preserves :
        (d : Draw) (user account : Uuid) → Preserves Q (create_or_read uuid_string s d user account)
    unfolding create_or_read
    create_or_read-Preserves d user account =
        chain-Preserves
          (try-Preserves (create_account-Preserves d (new_account uuid_string s user account)))
          (λ made. result-Preserves made pure-Preserves (λ e.
            if-Preserves {test = is_conflict e}
              (λ _. reads_account (account_owner_id user account) s.currency)
              (λ _. raise-Preserves e)))

    pub ensure_account_with-Preserves :
        (d : Draw) (user account : Uuid)
        → Preserves Q (ensure_account_with uuid_string s d user account)
    unfolding ensure_account_with
    ensure_account_with-Preserves d user account =
        chain-Preserves (try-Preserves (reads_account (account_owner_id user account) s.currency))
          (λ found.
            result-Preserves found
              (λ a. pure-Preserves (record a {
                owner_account_id = or_uuid a.owner_account_id (account_owner_id user account);
              }))
              (λ e.
                if-Preserves {test = is_not_found e} (λ _. create_or_read-Preserves d user account)
                  (λ _. raise-Preserves e)))

    pub grant_with_owner-Preserves :
        (d d' : Draw) (user account : Uuid) (amount : ℤ) (key reason : String)
        → Preserves Q (grant_with_owner uuid_string s d d' user account amount key reason)
    unfolding grant_with_owner
    grant_with_owner-Preserves d d' user account amount key reason =
        if-Preserves (λ _. pure-Preserves tt)
          (λ _. then-Preserves (raise_if-Preserves (key == "") unkeyed) (
            chain-Preserves (ensure_account_with-Preserves d user account)
              (λ a. forgive_conflict-Preserves (lasting.appends d' (entry a)))))
      where
        unkeyed : Error
        unkeyed = other "billingservice: grant idempotency key is required"

        entry : CreditAccount → LedgerEntry
        entry a =
            credit_entry uuid_string s a (account_owner_id user account) none LedgerEntryType.topup
              amount key reason
