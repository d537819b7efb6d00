-- ===== src/Billing/Service/Reserved.antt =====
-- What a reservation stores (service/billingservice over adapter/storage/memory/billing.go).
use vk_agregator.Base.{◌≡◌, refl, sym, ap, ◌∙◌, some, Uuid, String, arith}
use vk_agregator.Base.Eq.{uuid_key}
use vk_agregator.Base.Int.{ℤ, pos, leb_ℤ}
use vk_agregator.Base.Dict.{lookup, lookup-insert_self}
use vk_agregator.Base.Action.{ok, chain_ok, raise_if, invalid_amount, ◌>>=◌}
use vk_agregator.Domain.Billing.{CreditReservation, ReservationStatus}
use vk_agregator.Billing.{Draw}
use vk_agregator.Billing.Repo.{
  BillingRepo, append_locked, reserve, placed, hold_entry, store_reservation, claim_key,
}
use vk_agregator.Billing.Repo.Solvent.{append_locked-reservations}
use vk_agregator.Billing.Service.{
  Service, ensure_account_with, reserve_with_owner, new_hold, account_owner_id,
}

reserve_value :
    (d : Draw) (res : CreditReservation) (r : BillingRepo) (x : CreditReservation)
    → (reserve d res r).0 ≡ ok x
    → (x ≡ placed d res r)
      × ((reserve d res r).1
          ≡ (append_locked d
              (hold_entry (placed d res r))
              (claim_key res.idempotency_key (store_reservation (placed d res r) r))).1)
unfolding reserve
reserve_value d res r x e = ground arith

placed_fields :
    (d : Draw) (res : CreditReservation) (r : BillingRepo)
    → res.status ≡ ReservationStatus.reserved
    → ((placed d res r).job_id ≡ res.job_id)
      × ((placed d res r).amount ≡ res.amount)
      × ((placed d res r).status ≡ ReservationStatus.reserved)
unfolding placed
placed_fields d res r e = ground arith

-- An active hold of an amount for a job, in the ledger under its identifier.
abbrev pub Holding : Uuid → ℤ → CreditReservation → BillingRepo → Type 0
Holding job amount hold r =
    (lookup hold.id r.reservations ≡ some hold)
    × (hold.job_id ≡ job)
    × (hold.amount ≡ amount)
    × (hold.status ≡ ReservationStatus.reserved)

pub reserve-Holding :
    (d : Draw) (res : CreditReservation) (r : BillingRepo) (x : CreditReservation)
    → res.status ≡ ReservationStatus.reserved
    → (reserve d res r).0 ≡ ok x
    → Holding res.job_id res.amount x (reserve d res r).1
reserve-Holding d res r x active e =
    let (value, state) = reserve_value d res r x e in
    let (job, amount, status) = placed_fields d res r active in
    rw value (
      ap (λ t. lookup (placed d res r).id t.reservations) state
          ∙ ap (λ m. lookup (placed d res r).id m) (append_locked-reservations d _ _)
          ∙ lookup-insert_self (placed d res r).id (placed d res r) r.reservations,
      job,
      amount,
      status,
    )

-- A reservation for a job that answers `ok` has stored an active hold of that amount for it.
pub reserve_with_owner-Holding :
    (uuid_string : Uuid → String) (s : Service) (d d' : Draw) (user account job : Uuid) (amount : ℤ)
    (r : BillingRepo) (x : CreditReservation)
    → (reserve_with_owner uuid_string s d d' user account job amount r).0 ≡ ok x
    → Holding job amount x (reserve_with_owner uuid_string s d d' user account job amount r).1
unfolding reserve_with_owner
reserve_with_owner-Holding u s d d' user account job amount r x e =
    let owner = account_owner_id user account in
    let (unit, positive, same) =
      chain_ok (raise_if (leb_ℤ amount (pos 0)) invalid_amount)
        (λ _. ensure_account_with u s d user account >>= λ a.
          reserve d' (new_hold u s d' a owner job amount))
        r x e in
    let r' = (raise_if {S = BillingRepo} (leb_ℤ amount (pos 0)) invalid_amount r).1 in
    let (a, found, same') =
      chain_ok (ensure_account_with u s d user account)
        (λ a. reserve d' (new_hold u s d' a owner job amount)) r' x
        (ap (λ t. t.0) (sym same) ∙ e) in
    let mid = (ensure_account_with u s d user account r').1 in
    let total = same ∙ same' in
    rw total (
      reserve-Holding d' (new_hold u s d' a owner job amount) mid x refl
        (ap (λ t. t.0) (sym total) ∙ e))
