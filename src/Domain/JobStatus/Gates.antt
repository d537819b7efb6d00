-- ===== src/Domain/JobStatus/Gates.antt =====
-- What a job must have gone through (internal/domain/job.go), by the table of transitions.
use vk_agregator.Base.{◌≡◌, refl, true, List, ◌∷◌, arith}
use vk_agregator.Domain.JobStatus.{
  JobStatus, received, validated, rejected, awaiting_payment, credits_reserved, queued,
  dispatching_provider, provider_submitted, provider_pending, provider_processing,
  provider_succeeded, provider_failed, postprocessing, result_ready, delivering, succeeded,
  failed_retryable, failed_terminal, cancelled, expired, refunded, other, valid, can_transition_to,
}
use vk_agregator.Domain.JobStatus.Paths.{Run, start, step, mem}

abbrev Submitted : List JobStatus → Type 0
Submitted seen =
    (mem queued seen ≡ true)
    × (mem dispatching_provider seen ≡ true)
    × (mem provider_submitted seen ≡ true)

abbrev pub Delivered : List JobStatus → Type 0
Delivered seen =
    (mem queued seen ≡ true)
    × (mem dispatching_provider seen ≡ true)
    × (mem provider_submitted seen ≡ true)
    × (mem provider_succeeded seen ≡ true)
    × (mem result_ready seen ≡ true)
    × (mem delivering seen ≡ true)

-- The statuses that a job from `received` has been in, by the one that it is in now.
abbrev Passed : JobStatus → List JobStatus → Type 0
Passed queued seen = mem queued seen ≡ true
Passed dispatching_provider seen = (mem queued seen ≡ true) × (mem dispatching_provider seen ≡ true)
Passed provider_submitted seen = Submitted seen
Passed provider_pending seen = Submitted seen
Passed provider_processing seen = Submitted seen
Passed provider_succeeded seen = Submitted seen × (mem provider_succeeded seen ≡ true)
Passed postprocessing seen = Submitted seen × (mem provider_succeeded seen ≡ true)
Passed result_ready seen =
    Submitted seen × (mem provider_succeeded seen ≡ true) × (mem result_ready seen ≡ true)
Passed delivering seen = Delivered seen
Passed succeeded seen = Delivered seen
Passed _ seen = Unit {0}

step-Passed :
    (t u : JobStatus) (seen : List JobStatus)
    → can_transition_to t u ≡ true
    → Passed t seen
    → Passed u (u ∷ seen)
unfolding can_transition_to
step-Passed (other x) u seen e p = ground arith
step-Passed _ u seen e p = ground arith

Run-Passed : {s t : JobStatus} {seen : List JobStatus} → s ≡ received → Run s t seen → Passed t seen
Run-Passed first start = ground arith
Run-Passed first (step {t} {u} {seen} h e) = step-Passed t u seen e (Run-Passed first h)

-- A job that succeeds has been queued, dispatched, submitted to a provider, answered by it, ready
-- and in delivery: no history of allowed transitions from `received` skips one of these.
pub succeeded-Delivered : {seen : List JobStatus} → Run received succeeded seen → Delivered seen
succeeded-Delivered h = Run-Passed refl h

-- A job awaiting payment that is queued later has had its credits reserved in between.
abbrev Paid : JobStatus → List JobStatus → Type 0
Paid awaiting_payment seen = Unit {0}
Paid cancelled seen = Unit {0}
Paid expired seen = Unit {0}
Paid refunded seen = Unit {0}
Paid _ seen = mem credits_reserved seen ≡ true

step-Paid :
    (t u : JobStatus) (seen : List JobStatus)
    → can_transition_to t u ≡ true
    → Paid t seen
    → Paid u (u ∷ seen)
unfolding can_transition_to
step-Paid (other x) u seen e p = ground arith
step-Paid _ u seen e p = ground arith

Run-Paid :
    {s t : JobStatus} {seen : List JobStatus} → s ≡ awaiting_payment → Run s t seen → Paid t seen
Run-Paid first start = ground arith
Run-Paid first (step {t} {u} {seen} h e) = step-Paid t u seen e (Run-Paid first h)

-- A history of allowed transitions that takes a job from `awaiting_payment` to `queued` goes through
-- `credits_reserved`.
pub queued-paid :
    {seen : List JobStatus} → Run awaiting_payment queued seen → mem credits_reserved seen ≡ true
queued-paid h = Run-Paid refl h

-- Credits can be given back from every state but success: a known status other than `succeeded`
-- has a history of allowed transitions to `refunded`.
pub refundable :
    (s : JobStatus)
    → valid s ≡ true
    → (s ≡ succeeded → ⊥)
    → (seen : List JobStatus) × Run s refunded seen
unfolding valid can_transition_to
refundable received v n = (_, step {t = rejected} (step {t = received} start refl) refl)
refundable validated v n = (_, step {t = credits_reserved} (step {t = validated} start refl) refl)
refundable rejected v n = (_, step {t = rejected} start refl)
refundable awaiting_payment v n =
    (_, step {t = credits_reserved} (step {t = awaiting_payment} start refl) refl)
refundable credits_reserved v n = (_, step {t = credits_reserved} start refl)
refundable queued v n = (_, step {t = cancelled} (step {t = queued} start refl) refl)
refundable dispatching_provider v n =
    (_, step {t = failed_retryable} (step {t = dispatching_provider} start refl) refl)
refundable provider_submitted v n =
    (_, step {t = provider_failed} (step {t = provider_submitted} start refl) refl)
refundable provider_pending v n =
    (_, step {t = provider_failed} (step {t = provider_pending} start refl) refl)
refundable provider_processing v n =
    (_, step {t = provider_failed} (step {t = provider_processing} start refl) refl)
refundable provider_succeeded v n =
    (_, step {t = failed_retryable} (step {t = provider_succeeded} start refl) refl)
refundable provider_failed v n = (_, step {t = provider_failed} start refl)
refundable postprocessing v n =
    (_, step {t = failed_retryable} (step {t = postprocessing} start refl) refl)
refundable result_ready v n =
    (_, step {t = failed_retryable} (step {t = result_ready} start refl) refl)
refundable delivering v n = (_, step {t = failed_retryable} (step {t = delivering} start refl) refl)
refundable succeeded v n = absurd (n refl)
refundable failed_retryable v n = (_, step {t = failed_retryable} start refl)
refundable failed_terminal v n = (_, step {t = failed_terminal} start refl)
refundable cancelled v n = (_, step {t = cancelled} start refl)
refundable expired v n = (_, step {t = expired} start refl)
refundable refunded v n = (_, start)
refundable (other x) v n = cc
