-- ===== src/Billing/Repo/Settle.antt =====
-- Settling a hold (adapter/storage/memory/billing.go): `Capture` and `Release` give the hold up, and
-- charge for it or not.
use vk_agregator.Base.{
  String, false, ◌≡◌, refl, ap, ◌∙◌, ◌⊎◌, inl, inr, some, Uuid, arith, if◌then◌else◌, Bool-cases,
  Option-cases,
}
use vk_agregator.Base.Eq.{◌==◌, uuid_key, text_key}
use vk_agregator.Base.Int.{ℤ, pos, ◌+ℤ◌, ◌-ℤ◌, ◌≤ℤ◌, int_laws, one_part, parts_of, +ℤ-zero}
use vk_agregator.Base.Int64.{wrap64, wrap64_id, neg64, debit_exact}
use vk_agregator.Base.Dict.{lookup, insert, lookup_or}
use vk_agregator.Base.Action.{Error, err, not_found, conflict}
use vk_agregator.Domain.Billing.{CreditReservation, ReservationStatus, LedgerEntryType, is_reserved}
use vk_agregator.Billing.{Draw}
use vk_agregator.Billing.Repo.{
  BillingRepo, balance, append_locked, completed, settle_entry, capture, release,
}
use vk_agregator.Billing.Repo.Holds.{
  held, held_by, HoldsNonneg, held_nonneg, insert-HoldsNonneg, held-insert, held_by-le-held,
  lookup-nonneg,
}
use vk_agregator.Billing.Repo.Solvent.{IsSolvent, append_locked-balance, appended-IsSolvent}

-- The state with a hold given up, before the ledger entry.
abbrev pub given_up :
    Draw → Uuid → CreditReservation → ReservationStatus → BillingRepo → BillingRepo
given_up d id res status r = record r {
  reservations = insert id (record res { status = status; updated_at = d.now }) r.reservations;
}

module _ (d : Draw) (id : Uuid) (r : BillingRepo) where
  pub capture_cases :
      (amount : ℤ) (key : String)
      → ((x : Error) × (capture d id amount key r ≡ (err x, r)))
        ⊎ ((res : CreditReservation) × (lookup id r.reservations ≡ some res)
            × (res.status ≡ ReservationStatus.reserved)
            × (capture d id amount key r
                ≡ append_locked d
                    (settle_entry res LedgerEntryType.capture (neg64 amount) key "credit capture")
                    (given_up d id res ReservationStatus.captured r)))
  unfolding capture
  capture_cases amount key = elim (Option-cases (lookup id r.reservations)) [
    | inl missing ↦ inl (not_found, rw missing)
    | inr (res, found) ↦ elim (Bool-cases (is_reserved res.status)) [
      | inl active ↦ inr (res, found, ground arith, rw found (rw active))
      | inr settled ↦ inl (conflict, rw found (rw settled))
    ]
  ]

  pub release_cases :
      (key : String)
      → ((x : Error) × (release d id key r ≡ (err x, r)))
        ⊎ ((res : CreditReservation) × (lookup id r.reservations ≡ some res)
            × (res.status ≡ ReservationStatus.reserved)
            × (release d id key r
                ≡ append_locked d
                    (settle_entry res LedgerEntryType.release (pos 0) key "credit release")
                    (given_up d id res ReservationStatus.released r)))
  unfolding release
  release_cases key = elim (Option-cases (lookup id r.reservations)) [
    | inl missing ↦ inl (not_found, rw missing)
    | inr (res, found) ↦ elim (Bool-cases (is_reserved res.status)) [
      | inl active ↦ inr (res, found, ground arith, rw found (rw active))
      | inr settled ↦ inl (conflict, rw found (rw settled))
    ]
  ]

module _ (account : Uuid) (d : Draw) (id : Uuid) (res : CreditReservation) (r : BillingRepo)
    (s : IsSolvent account r) (found : lookup id r.reservations ≡ some res)
    (active : res.status ≡ ReservationStatus.reserved) where
  pub given_up-held :
      (status : ReservationStatus)
      → is_reserved status ≡ false
      → held account (given_up d id res status r).reservations +ℤ held_by account res
        ≡ held account r.reservations
  unfolding held_by
  given_up-held status off =
      held-insert account id (record res { status = status; updated_at = d.now }) res r.reservations
        found
      ∙ ap (λ x. held account r.reservations +ℤ x) (ground arith)
      ∙ +ℤ-zero _

  -- An own hold that is active is within the balance.
  amount-le-balance : res.account_id ≡ account → res.amount ≤ℤ balance account r
  unfolding held_by
  amount-le-balance own =
      ground (arith, held_by-le-held account id res r.reservations s.holds_nonneg found)

  pub settle-balance :
      (kind : LedgerEntryType) (amount : ℤ) (key reason : String) (status : ReservationStatus)
      → pos 0 ≤ℤ amount
      → amount ≤ℤ res.amount
      → balance account
          (append_locked d
            (settle_entry res kind (neg64 amount) key reason)
            (given_up d id res status r)).1
        ≡ (if lookup_or false key r.ledger_keys
            then balance account r
            else if res.account_id == account
            then balance account r -ℤ amount
            else balance account r)
  unfolding completed
  settle-balance kind amount key reason status p q =
      append_locked-balance account d (settle_entry res kind (neg64 amount) key reason)
        (given_up d id res status r) s.in_range
      ∙ elim (Bool-cases (res.account_id == account)) [
        | inl own ↦
            let same : res.account_id ≡ account = ground arith in
            let within = amount-le-balance same in
            ground (arith, debit_exact (balance account r) amount)
        | inr other ↦
            ground (arith, +ℤ-zero (balance account r), wrap64_id (balance account r) s.in_range)
      ]

  settle_bounds :
      (kind : LedgerEntryType) (amount : ℤ) (key reason : String) (status : ReservationStatus)
      → pos 0 ≤ℤ amount
      → amount ≤ℤ res.amount
      → let b =
          balance account
            (append_locked d
              (settle_entry res kind (neg64 amount) key reason)
              (given_up d id res status r)).1 in
        (balance account r ≤ℤ b +ℤ held_by account res) × (b ≤ℤ balance account r)
  unfolding held_by
  settle_bounds kind amount key reason status p q =
      rw (settle-balance kind amount key reason status p q) (grind int_laws)

  -- Settling keeps the account solvent, for a charge of at most the hold.
  pub settle-IsSolvent :
      (kind : LedgerEntryType) (amount : ℤ) (key reason : String) (status : ReservationStatus)
      → is_reserved status ≡ false
      → pos 0 ≤ℤ amount
      → amount ≤ℤ res.amount
      → IsSolvent account
          (append_locked d
            (settle_entry res kind (neg64 amount) key reason)
            (given_up d id res status r)).1
  settle-IsSolvent kind amount key reason status off p q =
      appended-IsSolvent account d (settle_entry res kind (neg64 amount) key reason)
        (given_up d id res status r) nonneg cover
        (omega (
          arith,
          held_nonneg account (given_up d id res status r).reservations nonneg,
          cover,
          bounds,
          s.in_range,
          one_part _,
        ))
    where
      nonneg : HoldsNonneg (given_up d id res status r).reservations
      nonneg =
          insert-HoldsNonneg _ _ r.reservations s.holds_nonneg
            (lookup-nonneg id res r.reservations s.holds_nonneg found)

      bounds :
          let b =
            balance account
              (append_locked d
                (settle_entry res kind (neg64 amount) key reason)
                (given_up d id res status r)).1 in
          (balance account r ≤ℤ b +ℤ held_by account res) × (b ≤ℤ balance account r)
      bounds = settle_bounds kind amount key reason status p q

      cover :
          held account (given_up d id res status r).reservations
          ≤ℤ balance account
              (append_locked d
                (settle_entry res kind (neg64 amount) key reason)
                (given_up d id res status r)).1
      cover = omega (int_laws, bounds, parts_of (given_up-held status off), s.covered)

-- The charge is of zero or more, and at most what the reservation holds.
abbrev pub IsWithinHold : Uuid → BillingRepo → ℤ → Type 0
IsWithinHold id r amount =
    (res : CreditReservation)
    → lookup id r.reservations ≡ some res
    → (pos 0 ≤ℤ amount) × (amount ≤ℤ res.amount)

module _ (account : Uuid) (d : Draw) (id : Uuid) (r : BillingRepo) where
  pub capture-IsSolvent :
      (amount : ℤ) (key : String)
      → IsWithinHold id r amount
      → IsSolvent account r
      → IsSolvent account (capture d id amount key r).1
  capture-IsSolvent amount key within s = elim (capture_cases d id r amount key) [
    | inl (x, same) ↦ rw same s
    | inr (res, found, active, e) ↦ rw e (
        settle-IsSolvent account d id res r s found active LedgerEntryType.capture amount key
          "credit capture" ReservationStatus.captured refl (within res found).0
          (within res found).1)
  ]

  pub release-IsSolvent :
      (key : String) → IsSolvent account r → IsSolvent account (release d id key r).1
  unfolding neg64 wrap64 ◌-ℤ◌
  release-IsSolvent key s = elim (release_cases d id r key) [
    | inl (x, same) ↦ rw same s
    | inr (res, found, active, e) ↦ rw e (
        settle-IsSolvent account d id res r s found active LedgerEntryType.release (pos 0) key
          "credit release" ReservationStatus.released refl (omega arith)
          (lookup-nonneg id res r.reservations s.holds_nonneg found))
  ]
