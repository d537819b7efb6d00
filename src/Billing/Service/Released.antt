-- ===== src/Billing/Service/Released.antt =====
-- Retrying a release for a job (service/billingservice), at once or later.
use vk_agregator.Base.{
  ◌≡◌, refl, ap, sym, ◌∙◌, inl, inr, true, false, none, some, Uuid, String, arith, Bool-cases,
  Option-cases,
}
use vk_agregator.Base.Eq.{uuid_key, text_key}
use vk_agregator.Base.Int.{pos}
use vk_agregator.Base.Dict.{lookup}
use vk_agregator.Base.Action.{ok, err, conflict}
use vk_agregator.Domain.Billing.{CreditReservation, ReservationStatus, LedgerEntryType, is_reserved}
use vk_agregator.Billing.{Draw, rel_key}
use vk_agregator.Billing.Repo.{
  BillingRepo, append_locked, release, get_reservation_by_job, newest_of, settle_entry,
}
use vk_agregator.Billing.Repo.Settle.{given_up}
use vk_agregator.Billing.Repo.ByJob.{WellKeyed, newest_of-found}
use vk_agregator.Billing.Repo.Keyed.{release-WellKeyed}
use vk_agregator.Billing.Repo.Over.{IsOver, Later, Later-IsOver, is_open, is_held}
use vk_agregator.Billing.Service.{Service, release_for_job, forgive_conflict}
use vk_agregator.Billing.Service.Idempotent.{given_up-newest, forgive_conflict-state}

-- `release` of a hold that is not active, and of one that is.
release_inactive :
    (d : Draw) (id : Uuid) (key : String) (r : BillingRepo) (res : CreditReservation)
    → lookup id r.reservations ≡ some res
    → is_reserved res.status ≡ false
    → release d id key r ≡ (err conflict, r)
unfolding release
release_inactive d id key r res found off = rw found (rw off)

release_active :
    (d : Draw) (id : Uuid) (key : String) (r : BillingRepo) (res : CreditReservation)
    → lookup id r.reservations ≡ some res
    → is_reserved res.status ≡ true
    → release d id key r
      ≡ append_locked d
          (settle_entry res LedgerEntryType.release (pos 0) key "credit release")
          (given_up d id res ReservationStatus.released r)
unfolding release
release_active d id key r res found on = rw found (rw on)

module _ (uuid_string : Uuid → String) (s : Service) where
  release_for_job_missing :
      (d : Draw) (job : Uuid) (r : BillingRepo)
      → newest_of job none r.reservations ≡ none
      → release_for_job uuid_string s d job r ≡ (ok tt, r)
  unfolding release_for_job get_reservation_by_job
  release_for_job_missing d job r missing = ground arith

  release_for_job_settled :
      (d : Draw) (job : Uuid) (r : BillingRepo) (res : CreditReservation)
      → newest_of job none r.reservations ≡ some res
      → is_reserved res.status ≡ false
      → release_for_job uuid_string s d job r ≡ (ok tt, r)
  unfolding release_for_job get_reservation_by_job
  release_for_job_settled d job r res found off = ground arith

  release_for_job_held :
      (d : Draw) (job : Uuid) (r : BillingRepo) (res : CreditReservation)
      → newest_of job none r.reservations ≡ some res
      → is_reserved res.status ≡ true
      → release_for_job uuid_string s d job r
        ≡ forgive_conflict (release d res.id (rel_key uuid_string res.id)) r
  unfolding release_for_job get_reservation_by_job
  release_for_job_held d job r res found on = ground arith

  release_for_job-IsOver :
      (d : Draw) (job : Uuid) (r : BillingRepo)
      → WellKeyed r.reservations
      → IsOver job (release_for_job uuid_string s d job r).1
  release_for_job-IsOver d job r w = elim (Option-cases (newest_of job none r.reservations)) [
    | inl missing ↦ rw (release_for_job_missing d job r missing) (w, rw missing refl)
    | inr (res, found) ↦ elim (Bool-cases (is_reserved res.status)) [
      | inr off ↦ rw (release_for_job_settled d job r res found off) (w, rw found off)
      | inl on ↦
          let kept = newest_of-found job r.reservations res w found in
          let key = rel_key uuid_string res.id in
          let moved =
            ap (λ t. t.1) (release_for_job_held d job r res found on)
            ∙ forgive_conflict-state (release d res.id key) r in
          rw moved (
            release-WellKeyed d res.id key r w,
            ap (λ t. is_open job t.1.reservations) (release_active d res.id key r res kept on)
                ∙ ap is_held (given_up-newest d job res ReservationStatus.released _ r w found),
          )
    ]
  ]

  release_for_job_over :
      (d : Draw) (job : Uuid) (r : BillingRepo)
      → IsOver job r
      → release_for_job uuid_string s d job r ≡ (ok tt, r)
  release_for_job_over d job r o = elim (Option-cases (newest_of job none r.reservations)) [
    | inl missing ↦ release_for_job_missing d job r missing
    | inr (res, found) ↦ release_for_job_settled d job r res found (ap is_held (sym found) ∙ o.1)
  ]

  -- A job's hold is released once: after a release for the job, whatever it did, and after any
  -- further calls on the repository that make no new hold for the job, failed ones too, a release for
  -- the job answers `ok` and changes nothing. Reservations are kept under their identifiers, holds
  -- made for other jobs take free ones, and where several holds of the job were made at one instant
  -- the same one is found each time.
  pub release_for_job-again :
      (d d' : Draw) (job : Uuid) (r t : BillingRepo)
      → WellKeyed r.reservations
      → Later uuid_string job (release_for_job uuid_string s d job r).1 t
      → release_for_job uuid_string s d' job t ≡ (ok tt, t)
  release_for_job-again d d' job r t w later =
      release_for_job_over d' job t
        (Later-IsOver uuid_string job later (release_for_job-IsOver d job r w))
