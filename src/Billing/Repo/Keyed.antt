-- ===== src/Billing/Repo/Keyed.antt =====
-- Reservations stay under their identifiers (adapter/storage/memory/billing.go) through every call.
use vk_agregator.Base.{◌≡◌, inl, inr, String, [], ◌∷◌, some, Uuid, arith}
use vk_agregator.Base.Eq.{uuid_key}
use vk_agregator.Base.Int.{ℤ}
use vk_agregator.Base.Dict.{Dict, lookup}
use vk_agregator.Domain.Billing.{CreditAccount, CreditReservation, ReservationStatus, LedgerEntry}
use vk_agregator.Billing.{Draw}
use vk_agregator.Billing.Repo.{
  BillingRepo, append_locked, append_entry, reserve, capture, release, create_account, hold_entry,
  placed, opened, opening_entry, store_account,
}
use vk_agregator.Billing.Repo.ByJob.{WellKeyed, insert-WellKeyed}
use vk_agregator.Billing.Repo.Solvent.{append_locked-reservations, reserve_cases, held_state}
use vk_agregator.Billing.Repo.Settle.{capture_cases, release_cases, given_up}
use vk_agregator.Billing.Repo.Reach.{
  Reach, start, next, creates, appends, reserves, captures, releases,
}

lookup-id :
    (id : Uuid) (res : CreditReservation) (m : Dict Uuid CreditReservation)
    → WellKeyed m
    → lookup id m ≡ some res
    → res.id ≡ id
lookup-id id res [] w e = cc
lookup-id id res (entry ∷ m) w e = ground (arith, lookup-id id res m w.2)

pub append_locked-WellKeyed :
    (d : Draw) (e : LedgerEntry) (r : BillingRepo)
    → WellKeyed r.reservations
    → WellKeyed (append_locked d e r).1.reservations
append_locked-WellKeyed d e r w = rw (append_locked-reservations d e r) w

pub given_up-WellKeyed :
    (d : Draw) (id : Uuid) (res : CreditReservation) (status : ReservationStatus) (r : BillingRepo)
    → lookup id r.reservations ≡ some res
    → WellKeyed r.reservations
    → WellKeyed (given_up d id res status r).reservations
given_up-WellKeyed d id res status r found w =
    rw (← lookup-id id res r.reservations w found)
      (insert-WellKeyed (record res { status = status; updated_at = d.now }) r.reservations w)

pub reserve-WellKeyed :
    (d : Draw) (res : CreditReservation) (r : BillingRepo)
    → WellKeyed r.reservations
    → WellKeyed (reserve d res r).1.reservations
reserve-WellKeyed d res r w = elim (reserve_cases res.account_id d res r) [
  | inl same ↦ rw same w
  | inr (enough, moved) ↦ rw moved (
      append_locked-WellKeyed d (hold_entry (placed d res r)) (held_state res.account_id d res r)
        (insert-WellKeyed (placed d res r) r.reservations w))
]

pub capture-WellKeyed :
    (d : Draw) (id : Uuid) (amount : ℤ) (key : String) (r : BillingRepo)
    → WellKeyed r.reservations
    → WellKeyed (capture d id amount key r).1.reservations
capture-WellKeyed d id amount key r w = elim (capture_cases d id r amount key) [
  | inl (x, same) ↦ rw same w
  | inr (res, found, active, moved) ↦ rw moved (
      append_locked-WellKeyed d _ _
        (given_up-WellKeyed d id res ReservationStatus.captured r found w))
]

pub release-WellKeyed :
    (d : Draw) (id : Uuid) (key : String) (r : BillingRepo)
    → WellKeyed r.reservations
    → WellKeyed (release d id key r).1.reservations
release-WellKeyed d id key r w = elim (release_cases d id r key) [
  | inl (x, same) ↦ rw same w
  | inr (res, found, active, moved) ↦ rw moved (
      append_locked-WellKeyed d _ _
        (given_up-WellKeyed d id res ReservationStatus.released r found w))
]

pub create_account-reservations :
    (u : Uuid → String) (d : Draw) (a : CreditAccount) (r : BillingRepo)
    → (create_account u d a r).1.reservations ≡ r.reservations
unfolding create_account
create_account-reservations u d a r = ground (
  arith,
  append_locked-reservations d (opening_entry u (opened d a) a.balance_cached)
      (store_account u (opened d a) r),
)

-- In every state that calls reach from an empty repository, each reservation stands under its own
-- identifier, and under no other.
pub Reach-WellKeyed :
    (uuid_string : Uuid → String) {r : BillingRepo} → Reach uuid_string r → WellKeyed r.reservations
unfolding append_entry
Reach-WellKeyed u start = tt
Reach-WellKeyed u (next {r} h (creates d a unused)) =
    rw (create_account-reservations u d a r) (Reach-WellKeyed u h)
Reach-WellKeyed u (next {r} h (appends d e)) = append_locked-WellKeyed d e r (Reach-WellKeyed u h)
Reach-WellKeyed u (next {r} h (reserves d res)) = reserve-WellKeyed d res r (Reach-WellKeyed u h)
Reach-WellKeyed u (next {r} h (captures d id amount key)) =
    capture-WellKeyed d id amount key r (Reach-WellKeyed u h)
Reach-WellKeyed u (next {r} h (releases d id key)) =
    release-WellKeyed d id key r (Reach-WellKeyed u h)
