-- ===== src/Billing/Repo/Balance.antt =====
-- `balance_cached` is a projection of the ledger (adapter/storage/memory/billing.go): what each
-- method of the repository does to it.
use vk_agregator.Base.{
  String, false, ◌&&◌, ◌≡◌, ap, sym, ◌∙◌, inl, inr, List, [], ◌∷◌, ◌++◌, Uuid, arith, if◌then◌else◌,
  Bool-cases,
}
use vk_agregator.Base.Eq.{◌==◌, uuid_key, text_key}
use vk_agregator.Base.Int.{ℤ, pos, ◌+ℤ◌, +ℤ_assoc, +ℤ-zero, zero-+ℤ}
use vk_agregator.Base.Int64.{wrap64, wrap64-+ℤ, ◌+₆₄◌}
use vk_agregator.Base.Dict.{lookup-insert, lookup_or}
use vk_agregator.Domain.Billing.{CreditAccount, LedgerEntry, CreditReservation, is_committed}
use vk_agregator.Billing.{Draw, or_uuid}
use vk_agregator.Billing.Repo.{
  BillingRepo, balance, zero_account, completed, credited, append_locked, append_entry, reserve,
  capture, release, hold_entry, placed, opened, create_account, store_account, store_reservation,
  claim_key, opening_entry,
}

-- What an entry counts toward an account's balance.
abbrev pub counted : Uuid → LedgerEntry → ℤ
counted account e = if e.account_id == account && is_committed e.status then e.amount else pos 0

-- The sum of an account's committed entries, with no bound on its size.
abbrev pub committed_sum : Uuid → List LedgerEntry → ℤ
committed_sum account [] = pos 0
committed_sum account (e ∷ es) = counted account e +ℤ committed_sum account es

committed_sum-append :
    (account : Uuid) (es : List LedgerEntry) (e : LedgerEntry)
    → committed_sum account (es ++ e ∷ []) ≡ committed_sum account es +ℤ counted account e
committed_sum-append account [] e = +ℤ-zero _ ∙ sym (zero-+ℤ _)
committed_sum-append account (x ∷ es) e =
    ap (λ s. counted account x +ℤ s) (committed_sum-append account es e) ∙ sym (+ℤ_assoc _ _ _)

-- The account's balance is the sum of its committed ledger entries, as an int64.
abbrev pub IsBalanced : Uuid → BillingRepo → Type 0
IsBalanced account r = balance account r ≡ wrap64 (committed_sum account r.ledger)

pub credited-balance :
    (account : Uuid) (d : Draw) (e : LedgerEntry) (r : BillingRepo) (s : ℤ)
    → balance account r ≡ wrap64 s
    → (lookup_or zero_account account (credited d e r)).balance_cached
      ≡ wrap64 (s +ℤ counted account e)
unfolding credited ◌+₆₄◌
credited-balance account d e r s h = grind (arith, lookup-insert, wrap64-+ℤ s e.amount, +ℤ-zero s)

pub append_locked-IsBalanced :
    (account : Uuid) (d : Draw) (e : LedgerEntry) (r : BillingRepo)
    → IsBalanced account r
    → IsBalanced account (append_locked d e r).1
unfolding append_locked
append_locked-IsBalanced account d e r h =
    elim (Bool-cases (lookup_or false e.idempotency_key r.ledger_keys)) [
      | inl used ↦ rw used h
      | inr fresh ↦ rw fresh (
          rw (committed_sum-append account r.ledger (completed d e r))
            (credited-balance account d (completed d e r) r (committed_sum account r.ledger) h))
    ]

-- Appending keeps every balance equal to its ledger sum.
pub append_entry-IsBalanced :
    (account : Uuid) (d : Draw) (e : LedgerEntry) (r : BillingRepo)
    → IsBalanced account r
    → IsBalanced account (append_entry d e r).1
unfolding append_entry
append_entry-IsBalanced account d e r h = append_locked-IsBalanced account d e r h

-- `reserve` after its guards.
pub reserve-IsBalanced :
    (account : Uuid) (d : Draw) (res : CreditReservation) (r : BillingRepo)
    → IsBalanced account r
    → IsBalanced account (reserve d res r).1
unfolding reserve
reserve-IsBalanced account d res r h = ground (
  arith,
  append_locked-IsBalanced account d (hold_entry (placed d res r))
      (claim_key res.idempotency_key (store_reservation (placed d res r) r)) h,
)

pub capture-IsBalanced :
    (account : Uuid) (d : Draw) (id : Uuid) (amount : ℤ) (key : String) (r : BillingRepo)
    → IsBalanced account r
    → IsBalanced account (capture d id amount key r).1
unfolding capture
capture-IsBalanced account d id amount key r h = grind (arith, append_locked-IsBalanced)

pub release-IsBalanced :
    (account : Uuid) (d : Draw) (id : Uuid) (key : String) (r : BillingRepo)
    → IsBalanced account r
    → IsBalanced account (release d id key r).1
unfolding release
release-IsBalanced account d id key r h = grind (arith, append_locked-IsBalanced)

module _ (uuid_string : Uuid → String) where
  store_account-IsBalanced :
      (account : Uuid) (d : Draw) (a : CreditAccount) (r : BillingRepo)
      → committed_sum (or_uuid a.id d.id) r.ledger ≡ pos 0
      → IsBalanced account r
      → IsBalanced account (store_account uuid_string (opened d a) r)
  unfolding opened wrap64
  store_account-IsBalanced account d a r fresh h = grind (arith, lookup-insert)

  pub create_account-IsBalanced :
      (account : Uuid) (d : Draw) (a : CreditAccount) (r : BillingRepo)
      → committed_sum (or_uuid a.id d.id) r.ledger ≡ pos 0
      → IsBalanced account r
      → IsBalanced account (create_account uuid_string d a r).1
  unfolding create_account
  create_account-IsBalanced account d a r fresh h = ground (
    arith,
    store_account-IsBalanced account d a r fresh h,
    append_locked-IsBalanced account d (opening_entry uuid_string (opened d a) a.balance_cached)
        (store_account uuid_string (opened d a) r),
  )
