-- ===== src/Billing/Service/Refunds.antt =====
-- Refunds (service/billingservice): one for each job, and the error that a retry gets.
use vk_agregator.Base.{◌≡◌, ap, ◌∙◌, inl, inr, true, false, some, Uuid, String, arith}
use vk_agregator.Base.Eq.{text_key}
use vk_agregator.Base.Int.{ℤ}
use vk_agregator.Base.Dict.{contains, lookup_or}
use vk_agregator.Base.Action.{ok, err, conflict, is_ok, Result-cases}
use vk_agregator.Domain.Billing.{CreditAccount, LedgerEntry, LedgerEntryType}
use vk_agregator.Billing.{Draw, user_currency_key, refund_key}
use vk_agregator.Billing.Repo.{BillingRepo, append_locked, append_entry}
use vk_agregator.Billing.Service.{
  Service, ensure_account_with, refund_for_owner, account_owner_id, credit_entry,
}
use vk_agregator.Billing.Service.Grants.{
  append_locked-by_user, append_locked-used, append_locked_used, ensure_account_with-known,
  ensure_account_with-again,
}

module _ (uuid_string : Uuid → String) (s : Service) (user account job : Uuid) where
  -- The entry that a refund appends.
  abbrev refund_entry : CreditAccount → ℤ → LedgerEntry
  refund_entry a amount =
      credit_entry uuid_string s a (account_owner_id user account) (some job) LedgerEntryType.refund
        amount (refund_key uuid_string job) "job refund"

  refund_for_owner_ok :
      (d d' : Draw) (amount : ℤ) (r : BillingRepo) (a : CreditAccount)
      → (ensure_account_with uuid_string s d user account r).0 ≡ ok a
      → refund_for_owner uuid_string s d d' user account job amount r
        ≡ append_locked d'
            (refund_entry a amount)
            (ensure_account_with uuid_string s d user account r).1
  unfolding refund_for_owner append_entry
  refund_for_owner_ok d d' amount r a found = ground arith

  refund_for_owner_ensured :
      (d d' : Draw) (amount : ℤ) (r : BillingRepo)
      → (refund_for_owner uuid_string s d d' user account job amount r).0 ≡ ok tt
      → is_ok (ensure_account_with uuid_string s d user account r).0 ≡ true
  unfolding refund_for_owner
  refund_for_owner_ensured d d' amount r e = ground arith

  refunded-again :
      (d d' : Draw) (amount : ℤ) (r : BillingRepo)
      → contains
          (user_currency_key uuid_string (account_owner_id user account) s.currency)
          r.by_user
        ≡ true
      → lookup_or false (refund_key uuid_string job) r.ledger_keys ≡ true
      → refund_for_owner uuid_string s d d' user account job amount r ≡ (err conflict, r)
  refunded-again d d' amount r known used =
      let (fine, same) = ensure_account_with-again uuid_string s d user account r known in
      elim (Result-cases (ensure_account_with uuid_string s d user account r).0) [
        | inr (x, failed) ↦ absurd (cc)
        | inl (a, found) ↦
            refund_for_owner_ok d d' amount r a found
            ∙ ap (λ t. append_locked d' (refund_entry a amount) t) same
            ∙ append_locked_used d' (refund_entry a amount) r used
      ]

  -- A refund of a job is not made twice in a row: after a refund that answered `ok`, a refund of the
  -- job to the same owner that directly follows it, of any amount, changes nothing and answers a
  -- conflict.
  pub refund_for_owner-once :
      (d d' e e' : Draw) (amount amount' : ℤ) (r : BillingRepo)
      → let t = refund_for_owner uuid_string s d d' user account job amount r in
        t.0 ≡ ok tt
        → refund_for_owner uuid_string s e e' user account job amount' t.1 ≡ (err conflict, t.1)
  refund_for_owner-once d d' e e' amount amount' r done =
      let fine = refund_for_owner_ensured d d' amount r done in
      elim (Result-cases (ensure_account_with uuid_string s d user account r).0) [
        | inr (x, failed) ↦ absurd (cc)
        | inl (a, found) ↦
            let entry = refund_entry a amount in
            let mid = (ensure_account_with uuid_string s d user account r).1 in
            let moved = ap (λ t. t.1) (refund_for_owner_ok d d' amount r a found) in
            refunded-again e e' amount' _
              (ap
                  (λ t.
                    contains
                      (user_currency_key uuid_string (account_owner_id user account) s.currency)
                      t.by_user)
                  moved
                ∙ ap
                    (λ m.
                      contains
                        (user_currency_key uuid_string (account_owner_id user account) s.currency)
                        m)
                    (append_locked-by_user d' entry mid)
                ∙ ensure_account_with-known uuid_string s d user account r fine)
              (ap (λ t. lookup_or false (refund_key uuid_string job) t.ledger_keys) moved
                ∙ append_locked-used d' entry mid)
      ]
