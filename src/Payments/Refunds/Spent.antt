-- ===== src/Payments/Refunds/Spent.antt =====
-- Credits that a refund has taken back are spent for good: no later ledger entry makes the scan of
-- the account (service/paymentservice/webhook_processor.go) pass again.
use mathlib.Core.Path.{subst}
use mathlib.Core.List.{reverse, reverse-cons}
use vk_agregator.Base.{
  ℕ, zero, suc, ◌≡◌, ◌≢◌, refl, sym, ap, ◌∙◌, inl, inr, Bool, true, false, Option, none, some, List,
  [], ◌∷◌, ◌++◌, Uuid, String, arith, Bool-cases, if◌then◌else◌,
}
use vk_agregator.Base.Eq.{◌==◌, text_key, uuid_key}
use vk_agregator.Base.Lists.{take, retain}
use vk_agregator.Base.Int.{ℤ}
use vk_agregator.Base.Dict.{lookup_or, lookup-insert}
use vk_agregator.Base.Action.{Result, ok}
use vk_agregator.Base.Preserves.{Preserves}
use vk_agregator.Domain.Billing.{LedgerEntry}
use vk_agregator.Billing.{Draw}
use vk_agregator.Billing.Repo.{BillingRepo, append_entry, append_locked, completed}
use vk_agregator.Billing.Service.Lasting.{IsLasting}
use vk_agregator.Payments.Scan.{scan_page, is_spending}
use vk_agregator.Payments.Scan.Whole.{
  decided, or_next, scan_page_cons, scan_page-nil, newest_entries,
}

reverse_last : {A : Type 0} (xs : List A) (x : A) → reverse (xs ++ x ∷ []) ≡ x ∷ reverse xs
reverse_last [] x = refl
reverse_last (y ∷ ys) x =
    reverse-cons y (ys ++ x ∷ [])
    ∙ ap (λ zs. zs ++ y ∷ []) (reverse_last ys x)
    ∙ ap (λ zs. x ∷ zs) (sym (reverse-cons y ys))

append_refused :
    (d : Draw) (e : LedgerEntry) (r : BillingRepo)
    → lookup_or false e.idempotency_key r.ledger_keys ≡ true
    → (append_entry d e r).1 ≡ r
unfolding append_entry append_locked
append_refused d e r used = rw used refl

append_ledger :
    (d : Draw) (e : LedgerEntry) (r : BillingRepo)
    → lookup_or false e.idempotency_key r.ledger_keys ≡ false
    → (append_entry d e r).1.ledger ≡ r.ledger ++ completed d e r ∷ []
unfolding append_entry append_locked
append_ledger d e r fresh = rw fresh refl

completed_account :
    (d : Draw) (e : LedgerEntry) (r : BillingRepo) → (completed d e r).account_id ≡ e.account_id
unfolding completed
completed_account d e r = refl

completed_key :
    (d : Draw) (e : LedgerEntry) (r : BillingRepo)
    → (completed d e r).idempotency_key ≡ e.idempotency_key
unfolding completed
completed_key d e r = refl

module _ (account : Uuid) (key : String) (credits : ℤ) where
  abbrev mine : LedgerEntry → Bool
  mine e = e.account_id == account

  pub newest_append :
      (d : Draw) (e : LedgerEntry) (r : BillingRepo)
      → lookup_or false e.idempotency_key r.ledger_keys ≡ false
      → newest_entries account (append_entry d e r).1 ≡ (
          if mine (completed d e r)
          then completed d e r ∷ newest_entries account r
          else newest_entries account r)
  newest_append d e r fresh =
      ap (λ es. retain mine (reverse es)) (append_ledger d e r fresh)
      ∙ ap (retain mine) (reverse_last r.ledger (completed d e r))

  -- However far the scan looks, it does not find that the credits are there.
  abbrev pub Refuses : List LedgerEntry → Type 0
  Refuses es = (n : ℕ) → scan_page key credits (take n es) ≢ some (ok tt)

  -- The scan refuses the payment of that key, and the key is used.
  abbrev pub IsSpent : BillingRepo → Type 0
  IsSpent r = Refuses (newest_entries account r) × (lookup_or false key r.ledger_keys ≡ true)

  undecided :
      (e : LedgerEntry) → e.idempotency_key == key ≡ false → decided key credits e ≢ some (ok tt)
  undecided e other found = elim (Bool-cases (is_spending e)) [
    | inl spends ↦ ground (arith, rw (other, spends) at found)
    | inr idle ↦ ground (arith, rw (other, idle) at found)
  ]

  or_next_not :
      (a b : Option (Result (Unit {0})))
      → a ≢ some (ok tt)
      → b ≢ some (ok tt)
      → or_next a b ≢ some (ok tt)
  or_next_not none b h k = k
  or_next_not (some x) b h k = h

  Refuses-cons :
      (e : LedgerEntry) (es : List LedgerEntry)
      → decided key credits e ≢ some (ok tt)
      → Refuses es
      → Refuses (e ∷ es)
  Refuses-cons e es h rest zero found =
      absurd (ground (arith, sym (scan_page-nil key credits) ∙ found))
  Refuses-cons e es h rest (suc n) found =
      or_next_not (decided key credits e) (scan_page key credits (take n es)) h (rest n)
        (sym (scan_page_cons key credits e (take n es)) ∙ found)

  append_fresh-Refuses :
      (d : Draw) (e : LedgerEntry) (r : BillingRepo)
      → lookup_or false e.idempotency_key r.ledger_keys ≡ false
      → IsSpent r
      → Refuses (newest_entries account (append_entry d e r).1)
  append_fresh-Refuses d e r fresh (refuses, used) =
      subst Refuses (sym (newest_append d e r fresh)) (elim (Bool-cases (mine (completed d e r))) [
        | inr foreign ↦ rw foreign refuses
        | inl ours ↦ rw ours (
            Refuses-cons (completed d e r) (newest_entries account r)
              (undecided (completed d e r) other_key) refuses)
      ])
    where
      other_key : (completed d e r).idempotency_key == key ≡ false
      other_key = elim (Bool-cases (e.idempotency_key == key)) [
        | inr other ↦ ap (λ k. k == key) (completed_key d e r) ∙ other
        | inl same ↦
            let clash =
              ap (λ k. lookup_or false k r.ledger_keys)
                ((text_key.same_iff e.idempotency_key key).0 same) in
            absurd (ground (arith, sym fresh ∙ clash ∙ used))
      ]

  pub append-used :
      (d : Draw) (e : LedgerEntry) (r : BillingRepo)
      → lookup_or false key r.ledger_keys ≡ true
      → lookup_or false key (append_entry d e r).1.ledger_keys ≡ true
  unfolding append_entry append_locked
  append-used d e r used =
      ground (arith, used, lookup-insert e.idempotency_key key true r.ledger_keys)

  append-IsSpent : (d : Draw) (e : LedgerEntry) → Preserves IsSpent (append_entry d e)
  append-IsSpent d e = record {
    kept = λ r h. elim (Bool-cases (lookup_or false e.idempotency_key r.ledger_keys)) [
      | inl again ↦ subst IsSpent (sym (append_refused d e r again)) h
      | inr fresh ↦ (append_fresh-Refuses d e r fresh h, append-used d e r h.1)
    ];
  }

  pub IsSpent-IsLasting : (uuid_string : Uuid → String) → IsLasting uuid_string IsSpent
  IsSpent-IsLasting uuid_string = record { appends = append-IsSpent; opens = λ a r h. h }
