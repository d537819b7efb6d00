-- ===== src/Billing/Repo/Reach.antt =====
-- Any history of calls on a new repository (adapter/storage/memory/billing.go), in any order.
use vk_agregator.Base.{String, false, ◌≡◌, refl, List, [], ◌∷◌, Uuid, arith}
use vk_agregator.Base.Eq.{◌==◌, uuid_key}
use vk_agregator.Base.Int.{ℤ, pos, zero-+ℤ}
use vk_agregator.Base.Int64.{wrap64}
use vk_agregator.Base.Lists.{any}
use vk_agregator.Domain.Billing.{CreditAccount, LedgerEntry, CreditReservation}
use vk_agregator.Billing.{Draw, or_uuid}
use vk_agregator.Billing.Repo.{
  BillingRepo, new_billing_repo, append_entry, reserve, capture, release, create_account,
}
use vk_agregator.Billing.Repo.Balance.{
  IsBalanced, committed_sum, append_entry-IsBalanced, reserve-IsBalanced, capture-IsBalanced,
  release-IsBalanced, create_account-IsBalanced,
}

-- No ledger entry is on the account: a new identifier is of no row yet.
abbrev pub IsUnused : Uuid → BillingRepo → Type 0
IsUnused id r = any (λ e. e.account_id == id) r.ledger ≡ false

committed_sum_of_unused :
    (id : Uuid) (es : List LedgerEntry)
    → any (λ e. e.account_id == id) es ≡ false
    → committed_sum id es ≡ pos 0
committed_sum_of_unused id [] h = refl
committed_sum_of_unused id (e ∷ es) h =
    ground (arith, committed_sum_of_unused id es, zero-+ℤ (pos 0))

module _ (uuid_string : Uuid → String) where
  pub data Step (r : BillingRepo) : BillingRepo → Type 0 where
    creates :
        (d : Draw) (a : CreditAccount)
        → IsUnused (or_uuid a.id d.id) r
        → Step r (create_account uuid_string d a r).1
    appends : (d : Draw) (e : LedgerEntry) → Step r (append_entry d e r).1
    reserves : (d : Draw) (res : CreditReservation) → Step r (reserve d res r).1
    captures :
        (d : Draw) (id : Uuid) (amount : ℤ) (key : String) → Step r (capture d id amount key r).1
    releases : (d : Draw) (id : Uuid) (key : String) → Step r (release d id key r).1

  pub data Reach : BillingRepo → Type 0 where
    start : Reach new_billing_repo
    next : {r s : BillingRepo} → Reach r → Step r s → Reach s

  Step-IsBalanced :
      (account : Uuid) {r s : BillingRepo} → Step r s → IsBalanced account r → IsBalanced account s
  Step-IsBalanced account {r} (creates d a unused) h =
      create_account-IsBalanced uuid_string account d a r (committed_sum_of_unused _ _ unused) h
  Step-IsBalanced account {r} (appends d e) h = append_entry-IsBalanced account d e r h
  Step-IsBalanced account {r} (reserves d res) h = reserve-IsBalanced account d res r h
  Step-IsBalanced account {r} (captures d id amount key) h =
      capture-IsBalanced account d id amount key r h
  Step-IsBalanced account {r} (releases d id key) h = release-IsBalanced account d id key r h

  -- After any calls at all, failed ones too, on a repository that began empty, the balance of
  -- every account is the sum of its committed ledger entries, wrapped to an int64. New accounts
  -- take identifiers that no entry names.
  pub Reach-IsBalanced : (account : Uuid) {r : BillingRepo} → Reach r → IsBalanced account r
  Reach-IsBalanced account start = unfold wrap64 in refl
  Reach-IsBalanced account (next h s) = Step-IsBalanced account s (Reach-IsBalanced account h)
