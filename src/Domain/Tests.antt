-- ===== src/Domain/Tests.antt =====
-- Theorems about the statuses (internal/domain) at concrete inputs.
use vk_agregator.Base.{◌≡◌, refl, ◌≤◌, ◌+◌, ◌*◌, ◌⊎◌, ◌↔◌, true, List, [], ◌∷◌}
use vk_agregator.Domain.JobStatus.{
  JobStatus, received, validated, queued, awaiting_payment, credits_reserved, dispatching_provider,
  provider_submitted, provider_succeeded, result_ready, delivering, succeeded, failed_retryable,
  refunded, valid, is_terminal, is_active_work, active_work_job_statuses, can_transition_to,
}
use vk_agregator.Domain.JobStatus.Paths.{
  Run, start, step, mem, is_terminal_iff, active_work-agrees, can_transition_to-valid,
  received-length,
}
use vk_agregator.Domain.JobStatus.Gates.{Delivered, succeeded-Delivered, queued-paid, refundable}

-- A job that is done at the first try, and one that is paid for late.
happy_path : Run received succeeded (
    succeeded ∷ delivering ∷ result_ready ∷ provider_succeeded ∷ provider_submitted
    ∷ dispatching_provider ∷ queued ∷ validated ∷ received ∷ [])
unfolding can_transition_to
happy_path =
    step {t = delivering}
      (step {t = result_ready}
        (step {t = provider_succeeded}
          (step {t = provider_submitted}
            (step {t = dispatching_provider}
              (step {t = queued} (step {t = validated} (step {t = received} start refl) refl) refl)
              refl)
            refl)
          refl)
        refl)
      refl

late_payment : Run awaiting_payment queued (queued ∷ credits_reserved ∷ awaiting_payment ∷ [])
unfolding can_transition_to
late_payment = step {t = credits_reserved} (step {t = awaiting_payment} start refl) refl

is_terminal_iff_example : (is_terminal queued ≡ true) ↔ ((queued ≡ succeeded) ⊎ (queued ≡ refunded))
is_terminal_iff_example = is_terminal_iff queued

active_work-agrees_example :
    mem failed_retryable active_work_job_statuses ≡ is_active_work failed_retryable
active_work-agrees_example = active_work-agrees failed_retryable

can_transition_to-valid_example : (valid queued ≡ true) × (valid dispatching_provider ≡ true)
unfolding can_transition_to
can_transition_to-valid_example = can_transition_to-valid queued dispatching_provider refl

received-length_example : 9 ≤ 16 + 10 * 0
received-length_example = received-length happy_path

succeeded-Delivered_example : Delivered (
    succeeded ∷ delivering ∷ result_ready ∷ provider_succeeded ∷ provider_submitted
    ∷ dispatching_provider ∷ queued ∷ validated ∷ received ∷ [])
succeeded-Delivered_example = succeeded-Delivered happy_path

queued-paid_example :
    mem credits_reserved (queued ∷ credits_reserved ∷ awaiting_payment ∷ []) ≡ true
queued-paid_example = queued-paid late_payment

refundable_example : (seen : List JobStatus) × Run delivering refunded seen
unfolding valid
refundable_example = refundable delivering refl (λ e. cc)
