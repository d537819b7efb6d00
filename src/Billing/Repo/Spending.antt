-- ===== src/Billing/Repo/Spending.antt =====
-- Opening accounts and topping them up (adapter/storage/memory/billing.go) keeps every account solvent.
use vk_agregator.Base.{
  String, false, ◌&&◌, ◌≡◌, refl, ◌∙◌, ◌⊎◌, inl, inr, [], ◌∷◌, Uuid, arith, if◌then◌else◌,
  Bool-cases,
}
use vk_agregator.Base.Eq.{◌==◌, uuid_key, text_key}
use vk_agregator.Base.Int.{pos, ◌+ℤ◌, ◌≤ℤ◌, int_laws, +ℤ-zero, zero-+ℤ}
use vk_agregator.Base.Int64.{wrap64_id, InRange}
use vk_agregator.Base.Lists.{any}
use vk_agregator.Base.Dict.{Dict, lookup_or, lookup-insert}
use vk_agregator.Domain.Billing.{
  CreditAccount, CreditReservation, LedgerEntry, is_committed, or_committed,
}
use vk_agregator.Billing.{Draw, or_uuid}
use vk_agregator.Billing.Repo.{
  BillingRepo, balance, append_locked, append_entry, completed, opened, store_account,
  opening_entry, create_account,
}
use vk_agregator.Billing.Repo.Holds.{held, held_by}
use vk_agregator.Billing.Repo.Solvent.{IsSolvent, append_locked-balance, appended-IsSolvent}

-- No hold is on the account: a new identifier is of no row yet.
abbrev pub HasNoHolds : Uuid → BillingRepo → Type 0
HasNoHolds id r = any (λ entry. entry.1.account_id == id) r.reservations ≡ false

held_of_no_holds :
    (id : Uuid) (m : Dict Uuid CreditReservation)
    → any (λ entry. entry.1.account_id == id) m ≡ false
    → held id m ≡ pos 0
unfolding held_by
held_of_no_holds id [] h = refl
held_of_no_holds id (x ∷ m) h = ground (arith, held_of_no_holds id m, zero-+ℤ (pos 0))

-- A top-up: an amount of zero or more that leaves the balance of its account an int64.
abbrev pub Fits : LedgerEntry → BillingRepo → Type 0
Fits e r = (pos 0 ≤ℤ e.amount) × InRange (balance e.account_id r +ℤ e.amount)

module _ (account : Uuid) where
  append_locked-grows :
      (d : Draw) (e : LedgerEntry) (r : BillingRepo)
      → Fits e r
      → InRange (balance account r)
      → (balance account (append_locked d e r).1 ≡ balance account r)
        ⊎ ((balance account (append_locked d e r).1 ≡ balance account r +ℤ e.amount)
            × InRange (balance account r +ℤ e.amount))
  unfolding completed
  append_locked-grows d e r fits range =
      elim (Bool-cases (lookup_or false e.idempotency_key r.ledger_keys)) [
        | inl used ↦ inl (append_locked-balance account d e r range ∙ rw used)
        | inr fresh ↦
            elim (Bool-cases (e.account_id == account && is_committed (or_committed e.status))) [
              | inl own ↦
                  let same : e.account_id ≡ account = ground arith in
                  let fits' : InRange (balance account r +ℤ e.amount) = rw same at fits.1 in
                  inr (
                    append_locked-balance account d e r range
                        ∙ rw fresh (rw own (wrap64_id _ fits')),
                    fits',
                  )
              | inr other ↦ inl (
                  append_locked-balance account d e r range
                  ∙ rw fresh (rw other (rw +ℤ-zero (wrap64_id _ range))))
            ]
      ]

  append_locked-IsSolvent :
      (d : Draw) (e : LedgerEntry) (r : BillingRepo)
      → Fits e r
      → IsSolvent account r
      → IsSolvent account (append_locked d e r).1
  append_locked-IsSolvent d e r fits s = elim (append_locked-grows d e r fits s.in_range) [
    | inl same ↦
        appended-IsSolvent account d e r s.holds_nonneg (rw same s.covered) (rw same s.in_range)
    | inr (more, range) ↦
        appended-IsSolvent account d e r s.holds_nonneg
          (rw more (omega (int_laws, fits.0, s.covered))) (rw more range)
  ]

  pub append_entry-IsSolvent :
      (d : Draw) (e : LedgerEntry) (r : BillingRepo)
      → Fits e r
      → IsSolvent account r
      → IsSolvent account (append_entry d e r).1
  unfolding append_entry
  append_entry-IsSolvent d e r fits s = append_locked-IsSolvent d e r fits s

module _ (uuid_string : Uuid → String) (account : Uuid) where
  store_account-balance :
      (d : Draw) (a : CreditAccount) (r : BillingRepo)
      → balance account (store_account uuid_string (opened d a) r)
        ≡ (if or_uuid a.id d.id == account then pos 0 else balance account r)
  unfolding opened
  store_account-balance d a r =
      ground (arith, lookup-insert (or_uuid a.id d.id) account (opened d a) r.accounts)

  store_account-IsSolvent :
      (d : Draw) (a : CreditAccount) (r : BillingRepo)
      → HasNoHolds (or_uuid a.id d.id) r
      → IsSolvent account r
      → IsSolvent account (store_account uuid_string (opened d a) r)
  store_account-IsSolvent d a r unused s = elim (Bool-cases (or_uuid a.id d.id == account)) [
    | inl new ↦
        let same : or_uuid a.id d.id ≡ account = ground arith in
        let empty : balance account (store_account uuid_string (opened d a) r) ≡ pos 0 =
          store_account-balance d a r ∙ rw new in
        record {
          holds_nonneg = s.holds_nonneg;
          covered =
              rw (empty, ← same, held_of_no_holds (or_uuid a.id d.id) r.reservations unused)
                (omega arith);
          in_range = rw empty (omega arith);
        }
    | inr old ↦
        let kept : balance account (store_account uuid_string (opened d a) r) ≡ balance account r =
          store_account-balance d a r ∙ rw old in
        record {
          holds_nonneg = s.holds_nonneg;
          covered = rw kept s.covered;
          in_range = rw kept s.in_range;
        }
  ]

module _ (uuid_string : Uuid → String) where
  opening-Fits :
      (d : Draw) (a : CreditAccount) (r : BillingRepo)
      → pos 0 ≤ℤ a.balance_cached
      → InRange a.balance_cached
      → Fits
          (opening_entry uuid_string (opened d a) a.balance_cached)
          (store_account uuid_string (opened d a) r)
  unfolding opened
  opening-Fits d a r p range =
      let empty : balance (or_uuid a.id d.id) (store_account uuid_string (opened d a) r) ≡ pos 0 =
        store_account-balance uuid_string (or_uuid a.id d.id) d a r ∙ ground arith in
      (p, rw (empty, zero-+ℤ) range)

  pub create_account-IsSolvent :
      (account : Uuid) (d : Draw) (a : CreditAccount) (r : BillingRepo)
      → HasNoHolds (or_uuid a.id d.id) r
      → pos 0 ≤ℤ a.balance_cached
      → InRange a.balance_cached
      → IsSolvent account r
      → IsSolvent account (create_account uuid_string d a r).1
  unfolding create_account
  create_account-IsSolvent account d a r unused p range s = ground (
    arith,
    store_account-IsSolvent uuid_string account d a r unused s,
    append_locked-IsSolvent account d (opening_entry uuid_string (opened d a) a.balance_cached)
        (store_account uuid_string (opened d a) r) (opening-Fits d a r p range),
  )
