-- ===== src/Billing/Service/Idempotent.antt =====
-- Retries of captures for a job (service/billingservice).
use vk_agregator.Base.{
  ◌≡◌, ◌≢◌, refl, ap, ◌∙◌, inl, inr, true, false, none, some, Uuid, String, arith, Bool-cases,
  Option-cases,
}
use vk_agregator.Base.Eq.{uuid_key, text_key}
use vk_agregator.Base.Int.{ℤ, pos, leb_ℤ, ◌≤ℤ◌}
use vk_agregator.Base.Int64.{neg64}
use vk_agregator.Base.Dict.{lookup}
use vk_agregator.Base.Action.{Action, ok, err, conflict}
use vk_agregator.Domain.Billing.{
  CreditReservation, ReservationStatus, LedgerEntry, LedgerEntryType, is_reserved, is_captured,
}
use vk_agregator.Billing.{Draw, cap_key}
use vk_agregator.Billing.Repo.{
  BillingRepo, append_locked, capture, get_reservation_by_job, newest_of, settle_entry,
}
use vk_agregator.Billing.Repo.Solvent.{append_locked-reservations}
use vk_agregator.Billing.Repo.Settle.{given_up}
use vk_agregator.Billing.Repo.ByJob.{
  WellKeyed, settled, map_some, newest_of-insert, newest_of-found,
}
use vk_agregator.Billing.Service.{Service, capture_for_job, forgive_conflict}

-- `capture` of a hold that is not active, and of one that is.
capture_inactive :
    (d : Draw) (id : Uuid) (amount : ℤ) (key : String) (r : BillingRepo) (res : CreditReservation)
    → lookup id r.reservations ≡ some res
    → is_reserved res.status ≡ false
    → capture d id amount key r ≡ (err conflict, r)
unfolding capture
capture_inactive d id amount key r res found off = rw found (rw off)

capture_active :
    (d : Draw) (id : Uuid) (amount : ℤ) (key : String) (r : BillingRepo) (res : CreditReservation)
    → lookup id r.reservations ≡ some res
    → is_reserved res.status ≡ true
    → capture d id amount key r
      ≡ append_locked d
          (settle_entry res LedgerEntryType.capture (neg64 amount) key "credit capture")
          (given_up d id res ReservationStatus.captured r)
unfolding capture
capture_active d id amount key r res found on = rw found (rw on)

-- After a hold is given up, the job's look-up finds it so.
pub given_up-newest :
    (d : Draw) (job : Uuid) (res : CreditReservation) (status : ReservationStatus) (e : LedgerEntry)
    (r : BillingRepo)
    → WellKeyed r.reservations
    → newest_of job none r.reservations ≡ some res
    → newest_of job none (append_locked d e (given_up d res.id res status r)).1.reservations
      ≡ some (record res { status = status; updated_at = d.now })
unfolding settled
given_up-newest d job res status e r w found =
    ap (λ m. newest_of job none m) (append_locked-reservations d e (given_up d res.id res status r))
    ∙ newest_of-insert res.id status d.now job res r.reservations w
        (newest_of-found job r.reservations res w found)
    ∙ ap (map_some (settled res.id status d.now)) found
    ∙ ground arith

pub forgive_conflict-state :
    (m : Action BillingRepo (Unit {0})) (r : BillingRepo) → (forgive_conflict m r).1 ≡ (m r).1
forgive_conflict-state m r = ground arith

pub forgive_conflict-err :
    (m : Action BillingRepo (Unit {0})) (r : BillingRepo)
    → m r ≡ (err conflict, r)
    → forgive_conflict m r ≡ (ok tt, r)
forgive_conflict-err m r e = rw e

module _ (uuid_string : Uuid → String) (s : Service) where
  -- The job's reservation is captured: another capture is answered `ok` and does nothing.
  captured-again :
      (d : Draw) (job : Uuid) (amount : ℤ) (r : BillingRepo) (res : CreditReservation)
      → leb_ℤ amount (pos 0) ≡ false
      → newest_of job none r.reservations ≡ some res
      → is_captured res.status ≡ true
      → capture_for_job uuid_string s d job amount r ≡ (ok tt, r)
  unfolding capture_for_job get_reservation_by_job
  captured-again d job amount r res p found done = ground arith

  capture_for_job_found :
      (d : Draw) (job : Uuid) (amount : ℤ) (r : BillingRepo) (res : CreditReservation)
      → leb_ℤ amount (pos 0) ≡ false
      → newest_of job none r.reservations ≡ some res
      → is_captured res.status ≡ false
      → capture_for_job uuid_string s d job amount r
        ≡ forgive_conflict (capture d res.id amount (cap_key uuid_string res.id)) r
  unfolding capture_for_job get_reservation_by_job
  capture_for_job_found d job amount r res p found uncaptured = ground arith

  capture_for_job_refused :
      (d : Draw) (job : Uuid) (amount : ℤ) (r : BillingRepo)
      → leb_ℤ amount (pos 0) ≡ true
      → (capture_for_job uuid_string s d job amount r).0 ≢ ok tt
  unfolding capture_for_job
  capture_for_job_refused d job amount r p = ground arith

  capture_for_job_missing :
      (d : Draw) (job : Uuid) (amount : ℤ) (r : BillingRepo)
      → newest_of job none r.reservations ≡ none
      → (capture_for_job uuid_string s d job amount r).0 ≢ ok tt
  unfolding capture_for_job get_reservation_by_job
  capture_for_job_missing d job amount r missing = ground arith

  -- A first capture that found an active hold, and a second one.
  capture_for_job-then :
      (d d' : Draw) (job : Uuid) (amount amount' : ℤ) (r : BillingRepo) (res : CreditReservation)
      → WellKeyed r.reservations
      → leb_ℤ amount (pos 0) ≡ false
      → leb_ℤ amount' (pos 0) ≡ false
      → newest_of job none r.reservations ≡ some res
      → is_captured res.status ≡ false
      → let t = capture_for_job uuid_string s d job amount r in
        capture_for_job uuid_string s d' job amount' t.1 ≡ (ok tt, t.1)
  capture_for_job-then d d' job amount amount' r res w p p' found fresh =
      let first = capture_for_job_found d job amount r res p found fresh in
      let kept = newest_of-found job r.reservations res w found in
      elim (Bool-cases (is_reserved res.status)) [
        | inl on ↦
            let moved =
              ap (λ t. t.1) first
              ∙ forgive_conflict-state (capture d res.id amount (cap_key uuid_string res.id)) r
              ∙ ap (λ t. t.1)
                  (capture_active d res.id amount (cap_key uuid_string res.id) r res kept on) in
            captured-again d' job amount' _ _ p'
              (ap (λ t. newest_of job none t.reservations) moved
                ∙ given_up-newest d job res ReservationStatus.captured _ r w found)
              refl
        | inr off ↦
            let same =
              first
              ∙ forgive_conflict-err (capture d res.id amount (cap_key uuid_string res.id)) r
                  (capture_inactive d res.id amount (cap_key uuid_string res.id) r res kept off) in
            let again =
              capture_for_job_found d' job amount' r res p' found fresh
              ∙ forgive_conflict-err (capture d' res.id amount' (cap_key uuid_string res.id)) r (
                  capture_inactive d' res.id amount' (cap_key uuid_string res.id) r res kept off) in
            rw same again
      ]

  -- Capturing for a job is safe to retry: once it has answered `ok`, a second capture for the job
  -- that directly follows it, of any positive amount, answers `ok` and changes nothing. Reservations
  -- are kept under their identifiers, and where several holds of the job were made at one instant,
  -- both calls find the same one.
  pub capture_for_job-again :
      (d d' : Draw) (job : Uuid) (amount amount' : ℤ) (r : BillingRepo)
      → WellKeyed r.reservations
      → pos 1 ≤ℤ amount'
      → let t = capture_for_job uuid_string s d job amount r in
        t.0 ≡ ok tt → capture_for_job uuid_string s d' job amount' t.1 ≡ (ok tt, t.1)
  capture_for_job-again d d' job amount amount' r w p' e =
      elim (Bool-cases (leb_ℤ amount (pos 0))) [
        | inl low ↦ absurd (capture_for_job_refused d job amount r low e)
        | inr p ↦ elim (Option-cases (newest_of job none r.reservations)) [
          | inl missing ↦ absurd (capture_for_job_missing d job amount r missing e)
          | inr (res, found) ↦ elim (Bool-cases (is_captured res.status)) [
            | inl done ↦
                rw (captured-again d job amount r res p found done)
                  (captured-again d' job amount' r res (ground arith) found done)
            | inr fresh ↦
                capture_for_job-then d d' job amount amount' r res w p (ground arith) found fresh
          ]
        ]
      ]
