-- ===== src/Billing/Service/Grants.antt =====
-- Grants and refunds (service/billingservice): one key, one entry.
use vk_agregator.Base.{◌≡◌, ap, ◌∙◌, inl, inr, true, false, none, Uuid, String, arith, Bool-cases}
use vk_agregator.Base.Eq.{◌==◌, uuid_key, text_key}
use vk_agregator.Base.Int.{ℤ, pos, leb_ℤ, ◌≤ℤ◌}
use vk_agregator.Base.Dict.{contains, lookup_or, lookup-insert_self}
use vk_agregator.Base.Action.{ok, err, conflict, is_ok, Result-cases}
use vk_agregator.Domain.Billing.{CreditAccount, LedgerEntry, LedgerEntryType}
use vk_agregator.Billing.{Draw, or_uuid, user_currency_key}
use vk_agregator.Billing.Repo.{
  BillingRepo, append_locked, append_entry, get_account_by_user, create_account, opened,
  opening_entry, store_account,
}
use vk_agregator.Billing.Service.{
  Service, ensure_account_with, grant_with_owner, forgive_conflict, account_owner_id, new_account,
  credit_entry,
}
use vk_agregator.Billing.Service.Idempotent.{forgive_conflict-state, forgive_conflict-err}

pub append_locked-by_user :
    (d : Draw) (e : LedgerEntry) (r : BillingRepo) → (append_locked d e r).1.by_user ≡ r.by_user
unfolding append_locked
append_locked-by_user d e r = ground arith

-- An append uses its key up, whether it goes through or not.
pub append_locked-used :
    (d : Draw) (e : LedgerEntry) (r : BillingRepo)
    → lookup_or false e.idempotency_key (append_locked d e r).1.ledger_keys ≡ true
unfolding append_locked
append_locked-used d e r = ground (arith, lookup-insert_self e.idempotency_key true r.ledger_keys)

pub append_locked_used :
    (d : Draw) (e : LedgerEntry) (r : BillingRepo)
    → lookup_or false e.idempotency_key r.ledger_keys ≡ true
    → append_locked d e r ≡ (err conflict, r)
unfolding append_locked
append_locked_used d e r used = rw used

module _ (uuid_string : Uuid → String) (s : Service) where
  create_account-known :
      (d : Draw) (a : CreditAccount) (r : BillingRepo)
      → is_ok (create_account uuid_string d a r).0 ≡ true
      → contains
          (user_currency_key uuid_string (or_uuid a.owner_account_id a.user_id) a.currency)
          (create_account uuid_string d a r).1.by_user
        ≡ true
  unfolding create_account opened
  create_account-known d a r e = ground (
    arith,
    append_locked-by_user d (opening_entry uuid_string (opened d a) a.balance_cached)
        (store_account uuid_string (opened d a) r),
    lookup-insert_self
        (user_currency_key uuid_string (or_uuid a.owner_account_id a.user_id) a.currency)
        (or_uuid a.id d.id) r.by_user,
  )

  -- Once an account is ensured, its owner is known.
  pub ensure_account_with-known :
      (d : Draw) (user account : Uuid) (r : BillingRepo)
      → is_ok (ensure_account_with uuid_string s d user account r).0 ≡ true
      → contains
          (user_currency_key uuid_string (account_owner_id user account) s.currency)
          (ensure_account_with uuid_string s d user account r).1.by_user
        ≡ true
  unfolding ensure_account_with get_account_by_user
  ensure_account_with-known d user account r e =
      ground (arith, create_account-known d (new_account uuid_string s user account) r)

  -- A known owner's account is found again, and nothing changes.
  pub ensure_account_with-again :
      (d : Draw) (user account : Uuid) (r : BillingRepo)
      → contains
          (user_currency_key uuid_string (account_owner_id user account) s.currency)
          r.by_user
        ≡ true
      → (is_ok (ensure_account_with uuid_string s d user account r).0 ≡ true)
        × ((ensure_account_with uuid_string s d user account r).1 ≡ r)
  unfolding ensure_account_with get_account_by_user
  ensure_account_with-again d user account r known = ground arith

  -- The entry that a grant appends.
  abbrev grant_entry : CreditAccount → Uuid → Uuid → ℤ → String → String → LedgerEntry
  grant_entry a user account amount key reason =
      credit_entry uuid_string s a (account_owner_id user account) none LedgerEntryType.topup amount
        key reason

  grant_with_owner_ok :
      (d d' : Draw) (user account : Uuid) (amount : ℤ) (key reason : String) (r : BillingRepo)
      (a : CreditAccount)
      → leb_ℤ amount (pos 0) ≡ false
      → key == "" ≡ false
      → (ensure_account_with uuid_string s d user account r).0 ≡ ok a
      → grant_with_owner uuid_string s d d' user account amount key reason r
        ≡ forgive_conflict
            (append_locked d' (grant_entry a user account amount key reason))
            (ensure_account_with uuid_string s d user account r).1
  unfolding grant_with_owner append_entry
  grant_with_owner_ok d d' user account amount key reason r a p k found = ground arith

  grant_with_owner_failed :
      (d d' : Draw) (user account : Uuid) (amount : ℤ) (key reason : String) (r : BillingRepo)
      → leb_ℤ amount (pos 0) ≡ false
      → (grant_with_owner uuid_string s d d' user account amount key reason r).0 ≡ ok tt
      → (key == "" ≡ false) × (is_ok (ensure_account_with uuid_string s d user account r).0 ≡ true)
  unfolding grant_with_owner
  grant_with_owner_failed d d' user account amount key reason r p e = ground arith

  -- The owner is known and the key is used: another grant does nothing.
  pub granted-again :
      (d d' : Draw) (user account : Uuid) (amount : ℤ) (key reason : String) (r : BillingRepo)
      → key == "" ≡ false
      → contains
          (user_currency_key uuid_string (account_owner_id user account) s.currency)
          r.by_user
        ≡ true
      → lookup_or false key r.ledger_keys ≡ true
      → grant_with_owner uuid_string s d d' user account amount key reason r ≡ (ok tt, r)
  granted-again d d' user account amount key reason r k known used =
      elim (Bool-cases (leb_ℤ amount (pos 0))) [
        | inl low ↦ unfold grant_with_owner in rw low
        | inr p ↦
            let (fine, same) = ensure_account_with-again d user account r known in
            elim (Result-cases (ensure_account_with uuid_string s d user account r).0) [
              | inr (x, failed) ↦ absurd (cc)
              | inl (a, found) ↦
                  grant_with_owner_ok d d' user account amount key reason r a p k found
                  ∙ ap
                      (λ t.
                        forgive_conflict
                          (append_locked d' (grant_entry a user account amount key reason)) t)
                      same
                  ∙ forgive_conflict-err
                      (append_locked d' (grant_entry a user account amount key reason)) r
                      (append_locked_used d' (grant_entry a user account amount key reason) r used)
            ]
      ]

  -- After a grant its key is used, and its owner is known.
  pub grant_with_owner-known :
      (d d' : Draw) (user account : Uuid) (amount : ℤ) (key reason : String) (r : BillingRepo)
      → pos 1 ≤ℤ amount
      → let t = grant_with_owner uuid_string s d d' user account amount key reason r in
        t.0 ≡ ok tt
        → (key == "" ≡ false)
          × (lookup_or false key t.1.ledger_keys ≡ true)
          × (contains
                (user_currency_key uuid_string (account_owner_id user account) s.currency)
                t.1.by_user
              ≡ true)
  grant_with_owner-known d d' user account amount key reason r p granted =
      let (k, fine) =
        grant_with_owner_failed d d' user account amount key reason r (ground arith) granted in
      elim (Result-cases (ensure_account_with uuid_string s d user account r).0) [
        | inr (x, failed) ↦ absurd (cc)
        | inl (a, found) ↦
            let entry = grant_entry a user account amount key reason in
            let mid = (ensure_account_with uuid_string s d user account r).1 in
            let owner = user_currency_key uuid_string (account_owner_id user account) s.currency in
            let moved =
              ap (λ t. t.1)
                (grant_with_owner_ok d d' user account amount key reason r a (ground arith) k found)
              ∙ forgive_conflict-state (append_locked d' entry) mid in
            (
              k,
              ap (λ t. lookup_or false key t.ledger_keys) moved ∙ append_locked-used d' entry mid,
              ap (λ t. contains owner t.by_user) moved
                  ∙ ap (λ m. contains owner m) (append_locked-by_user d' entry mid)
                  ∙ ensure_account_with-known d user account r fine,
            )
      ]

  -- A grant is made once for each key: after a grant that answered `ok`, a grant to the same owner
  -- under that key that directly follows it, of any amount, answers `ok` and changes nothing. The
  -- first grant is of a positive amount.
  pub grant_with_owner-once :
      (d d' e e' : Draw) (user account : Uuid) (amount amount' : ℤ) (key reason reason' : String)
      (r : BillingRepo)
      → pos 1 ≤ℤ amount
      → let t = grant_with_owner uuid_string s d d' user account amount key reason r in
        t.0 ≡ ok tt
        → grant_with_owner uuid_string s e e' user account amount' key reason' t.1 ≡ (ok tt, t.1)
  grant_with_owner-once d d' e e' user account amount amount' key reason reason' r p granted =
      let (k, used, known) =
        grant_with_owner-known d d' user account amount key reason r p granted in
      granted-again e e' user account amount' key reason' _ k known used
