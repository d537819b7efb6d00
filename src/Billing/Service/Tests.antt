-- ===== src/Billing/Service/Tests.antt =====
-- Tests of the billing service (service/billingservice), and its theorems at concrete inputs.
use vk_agregator.Base.{◌≡◌, refl, arith}
use vk_agregator.Base.Int.{pos, ◌+ℤ◌, ◌-ℤ◌}
use vk_agregator.Base.Int64.{◌+₆₄◌, ◌-₆₄◌, neg64, wrap64}
use vk_agregator.Base.Action.{ok, err, conflict, unknown_operation}
use vk_agregator.Billing.{
  grant_open_key, reserve_entry_key, user_currency_key, cap_key, rel_key, resv_key, refund_key,
}
use vk_agregator.Domain.Job.{OperationType}
use vk_agregator.Domain.Billing.{CreditReservation}
use vk_agregator.Billing.Repo.{
  BillingRepo, new_billing_repo, create_account, reserve, capture, release, available_locked,
  append_entry, append_locked, placed, get_account_by_user, get_reservation_by_job, balance,
  consider,
}
use vk_agregator.Billing.Repo.ByJob.{WellKeyed}
use vk_agregator.Billing.Repo.Keyed.{Reach-WellKeyed}
use vk_agregator.Billing.Repo.Reach.{start, next, creates, reserves}
use vk_agregator.Billing.Tests.{id_text, draw, wanted, hold, with_account, with_hold}
use vk_agregator.Billing.Service.{
  new_service, estimate, capture_for_job, release_for_job, grant_with_owner, refund_for_owner,
  ensure_account_with, create_or_read, reserve_with_owner,
}
use vk_agregator.Billing.Service.Idempotent.{capture_for_job-again}
use vk_agregator.Billing.Repo.Over as Over
use vk_agregator.Billing.Service.Released.{release_for_job-again}
use vk_agregator.Billing.Service.Grants.{grant_with_owner-once}
use vk_agregator.Billing.Service.Refunds.{refund_for_owner-once}

-- What a run computes with.
runs : Unit {0}
unfolding create_account append_entry append_locked reserve capture release available_locked placed
    get_account_by_user get_reservation_by_job capture_for_job release_for_job grant_with_owner
    refund_for_owner ensure_account_with create_or_read reserve_with_owner ◌+₆₄◌ ◌-₆₄◌ neg64 wrap64
    ◌+ℤ◌ ◌-ℤ◌ grant_open_key reserve_entry_key user_currency_key cap_key rel_key resv_key refund_key
    consider estimate
runs = tt

no_price : estimate new_service OperationType.audio_tts ≡ err unknown_operation
unfolding runs
no_price = refl

-- A first reservation opens the account with 30 credits.
opens_account :
    balance 2
      (reserve_with_owner id_text new_service (draw 2) (draw 4) 7 0 9 (pos 10) new_billing_repo).1
    ≡ pos 30
unfolding runs
opens_account = refl

with_hold_WellKeyed : WellKeyed with_hold.reservations
with_hold_WellKeyed =
    Reach-WellKeyed id_text
      (next (next start (creates (draw 2) wanted refl)) (reserves (draw 4) hold))

Reach-WellKeyed_example : WellKeyed with_hold.reservations
Reach-WellKeyed_example =
    Reach-WellKeyed id_text
      (next (next start (creates (draw 2) wanted refl)) (reserves (draw 4) hold))

capture_for_job-again_example :
    let s = (capture_for_job id_text new_service (draw 8) 9 (pos 6) with_hold).1 in
    capture_for_job id_text new_service (draw 9) 9 (pos 3) s ≡ (ok tt, s)
unfolding runs
capture_for_job-again_example =
    capture_for_job-again id_text new_service (draw 8) (draw 9) 9 (pos 6) (pos 3) with_hold
      with_hold_WellKeyed (omega arith) refl

abbrev other_hold : CreditReservation
other_hold = record hold { id = 0; job_id = 11; idempotency_key = "k11" }

-- After the release, another job takes a hold.
abbrev released_then_held : BillingRepo
released_then_held =
    (reserve (draw 5) other_hold (release_for_job id_text new_service (draw 8) 9 with_hold).1).1

release_for_job-again_example :
    release_for_job id_text new_service (draw 9) 9 released_then_held ≡ (ok tt, released_then_held)
unfolding runs
release_for_job-again_example =
    release_for_job-again id_text new_service (draw 8) (draw 9) 9 with_hold released_then_held
      with_hold_WellKeyed (Over.reserves (draw 5) other_hold refl refl Over.at_once)

grant_with_owner-once_example :
    let s =
      (grant_with_owner id_text new_service
        (draw 6)
        (draw 8)
        7
        0
        (pos 5)
        "k"
        "gift"
        with_account).1 in
    grant_with_owner id_text new_service (draw 9) (draw 10) 7 0 (pos 50) "k" "again" s ≡ (ok tt, s)
unfolding runs
grant_with_owner-once_example =
    grant_with_owner-once id_text new_service (draw 6) (draw 8) (draw 9) (draw 10) 7 0 (pos 5)
      (pos 50) "k" "gift" "again" with_account (omega arith) refl

refund_for_owner-once_example :
    let s = (refund_for_owner id_text new_service (draw 6) (draw 8) 7 0 9 (pos 5) with_account).1 in
    refund_for_owner id_text new_service (draw 9) (draw 10) 7 0 9 (pos 5) s ≡ (err conflict, s)
unfolding runs
refund_for_owner-once_example =
    refund_for_owner-once id_text new_service 7 0 9 (draw 6) (draw 8) (draw 9) (draw 10) (pos 5)
      (pos 5) with_account refl
