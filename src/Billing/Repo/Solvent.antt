-- ===== src/Billing/Repo/Solvent.antt =====
-- Solvency (adapter/storage/memory/billing.go): each account's active holds are covered by its
-- balance, through every method.
use vk_agregator.Base.{
  false, ◌≡◌, ap, sym, ◌∙◌, ◌⊎◌, inl, inr, none, Uuid, arith, if◌then◌else◌, Bool-cases,
}
use vk_agregator.Base.Eq.{◌==◌, uuid_key, text_key}
use vk_agregator.Base.Int.{pos, ◌+ℤ◌, ◌-ℤ◌, ◌≤ℤ◌, ltb_ℤ, int_laws, one_part, +ℤ-zero}
use vk_agregator.Base.Int64.{wrap64, wrap64_id, InRange}
use vk_agregator.Base.Dict.{lookup, lookup_or}
use vk_agregator.Domain.Billing.{CreditReservation, LedgerEntry}
use vk_agregator.Billing.{Draw, or_uuid}
use vk_agregator.Billing.Repo.{
  BillingRepo, balance, less_held, available_locked, append_locked, completed, placed, hold_entry,
  reserve, claim_key, store_reservation,
}
use vk_agregator.Billing.Repo.Balance.{counted, credited-balance}
use vk_agregator.Billing.Repo.Holds.{
  held, held_by, HoldsNonneg, less_held_lem, held_nonneg, insert-HoldsNonneg, held-insert_new,
}

pub record IsSolvent (account : Uuid) (r : BillingRepo) : Type 0 where
  pub holds_nonneg : HoldsNonneg r.reservations
  pub covered : held account r.reservations ≤ℤ balance account r
  pub in_range : InRange (balance account r)

-- For a solvent account the available amount is computed without a wrap.
pub available_exact :
    (account : Uuid) (r : BillingRepo)
    → IsSolvent account r
    → available_locked account r ≡ balance account r -ℤ held account r.reservations
unfolding available_locked
available_exact account r s =
    ap (λ b. less_held account b r.reservations) (sym (wrap64_id (balance account r) s.in_range))
    ∙ less_held_lem account (balance account r) r.reservations
    ∙ wrap64_id _ (
        omega (
          int_laws,
          held_nonneg account r.reservations s.holds_nonneg,
          one_part (balance account r),
          one_part (balance account r -ℤ held account r.reservations),
        ))

-- An append leaves the holds alone, and adds a committed amount to the balance unless its key was used.
pub append_locked-reservations :
    (d : Draw) (e : LedgerEntry) (r : BillingRepo)
    → (append_locked d e r).1.reservations ≡ r.reservations
unfolding append_locked
append_locked-reservations d e r = ground arith

pub append_locked-balance :
    (account : Uuid) (d : Draw) (e : LedgerEntry) (r : BillingRepo)
    → InRange (balance account r)
    → balance account (append_locked d e r).1 ≡ (
        if lookup_or false e.idempotency_key r.ledger_keys
        then balance account r
        else wrap64 (balance account r +ℤ counted account (completed d e r)))
unfolding append_locked
append_locked-balance account d e r h =
    elim (Bool-cases (lookup_or false e.idempotency_key r.ledger_keys)) [
      | inl used ↦ rw used
      | inr fresh ↦
          rw fresh (
            credited-balance account d (completed d e r) r (balance account r)
              (sym (wrap64_id _ h)))
    ]

module _ (account : Uuid) where
  -- A hold's entry is pending, so placing a hold leaves every balance alone.
  pub hold-balance :
      (d : Draw) (res : CreditReservation) (r : BillingRepo)
      → InRange (balance account r)
      → balance account (append_locked d (hold_entry res) r).1 ≡ balance account r
  unfolding completed
  hold-balance d res r h = ground (
    arith,
    append_locked-balance account d (hold_entry res) r h,
    wrap64_id (balance account r) h,
    +ℤ-zero (balance account r),
  )

  -- After an append the holds are those before it.
  pub appended-IsSolvent :
      (d : Draw) (e : LedgerEntry) (r : BillingRepo)
      → HoldsNonneg r.reservations
      → held account r.reservations ≤ℤ balance account (append_locked d e r).1
      → InRange (balance account (append_locked d e r).1)
      → IsSolvent account (append_locked d e r).1
  appended-IsSolvent d e r nonneg cover range = record {
    holds_nonneg = rw (append_locked-reservations d e r) nonneg;
    covered = rw (append_locked-reservations d e r) cover;
    in_range = range;
  }

  -- The state between the guards of `reserve` and its ledger entry.
  abbrev pub held_state : Draw → CreditReservation → BillingRepo → BillingRepo
  held_state d res r = claim_key res.idempotency_key (store_reservation (placed d res r) r)

  -- `reserve` changes nothing, or the hold is covered by what is available.
  pub reserve_cases :
      (d : Draw) (res : CreditReservation) (r : BillingRepo)
      → ((reserve d res r).1 ≡ r)
        ⊎ ((ltb_ℤ (available_locked res.account_id r) res.amount ≡ false)
            × ((reserve d res r).1
                ≡ (append_locked d (hold_entry (placed d res r)) (held_state d res r)).1))
  unfolding reserve
  reserve_cases d res r = ground arith

  held_state-covered :
      (d : Draw) (res : CreditReservation) (r : BillingRepo)
      → lookup (or_uuid res.id d.id) r.reservations ≡ none
      → ltb_ℤ (available_locked res.account_id r) res.amount ≡ false
      → IsSolvent account r
      → held account (held_state d res r).reservations ≤ℤ balance account r
  unfolding placed held_by
  held_state-covered d res r fresh enough s = elim (Bool-cases (res.account_id == account)) [
    | inl own ↦
        let same : res.account_id ≡ account = ground arith in
        grind (
          int_laws,
          held-insert_new account (or_uuid res.id d.id) (placed d res r) r.reservations fresh,
          available_exact account r s,
        )
    | inr other ↦ grind (
      int_laws,
      held-insert_new account (or_uuid res.id d.id) (placed d res r) r.reservations fresh,
    )
  ]

  -- A hold that is placed on a solvent account leaves it solvent, whatever `reserve` answers.
  pub reserve-IsSolvent :
      (d : Draw) (res : CreditReservation) (r : BillingRepo)
      → pos 0 ≤ℤ res.amount
      → lookup (or_uuid res.id d.id) r.reservations ≡ none
      → IsSolvent account r
      → IsSolvent account (reserve d res r).1
  unfolding placed
  reserve-IsSolvent d res r nonneg fresh s = elim (reserve_cases d res r) [
    | inl same ↦ rw same s
    | inr (enough, moved) ↦ rw moved (
        appended-IsSolvent d (hold_entry (placed d res r)) (held_state d res r)
          (insert-HoldsNonneg _ _ r.reservations s.holds_nonneg nonneg)
          (rw (hold-balance d (placed d res r) (held_state d res r) s.in_range)
            (held_state-covered d res r fresh enough s))
          (rw (hold-balance d (placed d res r) (held_state d res r) s.in_range) s.in_range))
  ]
