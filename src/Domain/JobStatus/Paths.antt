-- ===== src/Domain/JobStatus/Paths.antt =====
-- The paths of the job state machine (internal/domain/job.go): where a job can go, how often, and
-- through what.
use vk_agregator.Base.{
  ℕ, ◌+◌, ◌*◌, ◌≤◌, ◌≡◌, refl, ◌⊎◌, ◌↔◌, if◌then◌else◌, Bool, true, false, List, [], ◌∷◌, arith,
}
use vk_agregator.Base.Lists.{any, length}
use vk_agregator.Domain.JobStatus.{
  JobStatus, received, validated, awaiting_payment, credits_reserved, queued, dispatching_provider,
  provider_submitted, provider_pending, provider_processing, provider_succeeded, provider_failed,
  postprocessing, result_ready, delivering, succeeded, failed_retryable, refunded, other,
  status_beq, valid, is_terminal, is_active_work, active_work_job_statuses, can_transition_to,
}

-- A history of a job, newest status first: each follows from the one before by an allowed
-- transition.
pub data Run (s : JobStatus) : JobStatus → List JobStatus → Type 0 where
  start : Run s s (s ∷ [])
  step :
      {t u : JobStatus} {seen : List JobStatus}
      → Run s t seen
      → can_transition_to t u ≡ true
      → Run s u (u ∷ seen)

abbrev pub mem : JobStatus → List JobStatus → Bool
mem s = any (λ t. status_beq t s)

-- `IsTerminal` answers true for exactly `succeeded` and `refunded`, so for none of the other ends of a
-- job: not for `failed_terminal`, `rejected`, `cancelled` or `expired`.
pub is_terminal_iff : (s : JobStatus) → (is_terminal s ≡ true) ↔ ((s ≡ succeeded) ⊎ (s ≡ refunded))
unfolding is_terminal
is_terminal_iff s = ground arith

-- The list that repositories query by holds exactly the statuses that `is_active_work` accepts.
pub active_work-agrees : (s : JobStatus) → mem s active_work_job_statuses ≡ is_active_work s
unfolding active_work_job_statuses is_active_work
active_work-agrees (other x) = refl
active_work-agrees _ = refl

-- Transitions lead from known statuses to known statuses only.
pub can_transition_to-valid :
    (s t : JobStatus) → can_transition_to s t ≡ true → (valid s ≡ true) × (valid t ≡ true)
unfolding can_transition_to valid
can_transition_to-valid (other x) t h = ground arith
can_transition_to-valid _ t h = ground arith

-- How far a job has come.
abbrev pub rank : JobStatus → ℕ
rank received = 0
rank validated = 1
rank awaiting_payment = 2
rank credits_reserved = 3
rank queued = 4
rank dispatching_provider = 5
rank provider_submitted = 6
rank provider_pending = 7
rank provider_processing = 8
rank provider_succeeded = 9
rank provider_failed = 9
rank postprocessing = 10
rank result_ready = 11
rank delivering = 12
rank failed_retryable = 13
rank refunded = 15
rank _ = 14

rank-le : (s : JobStatus) → rank s ≤ 15
rank-le (other x) = omega arith
rank-le _ = omega arith

abbrev pub is_retry : JobStatus → JobStatus → Bool
is_retry failed_retryable queued = true
is_retry _ _ = false

abbrev pub retry_into : JobStatus → List JobStatus → ℕ
retry_into u [] = 0
retry_into u (t ∷ seen) = if is_retry t u then 1 else 0

-- How often a history went from `failed_retryable` back to `queued`.
abbrev pub retries : List JobStatus → ℕ
retries [] = 0
retries (u ∷ seen) = retry_into u seen + retries seen

step-rank :
    (s t : JobStatus)
    → can_transition_to s t ≡ true
    → rank s + 1 ≤ rank t + 10 * (if is_retry s t then 1 else 0)
unfolding can_transition_to
step-rank (other x) t h = ground arith
step-rank _ t h = ground arith

-- The newest status of a history is its end.
Run-retry_into :
    {s t : JobStatus} {seen : List JobStatus} (u : JobStatus)
    → Run s t seen
    → retry_into u seen ≡ (if is_retry t u then 1 else 0)
Run-retry_into u start = refl
Run-retry_into u (step h e) = refl

length-rank :
    {s t : JobStatus} {seen : List JobStatus}
    → Run s t seen
    → length seen + rank s ≤ rank t + 1 + 10 * retries seen
length-rank {s} start = omega arith
length-rank {s} (step {t} {u} {seen} h e) =
    omega (arith, step-rank t u e, Run-retry_into u h, length-rank h)

-- A job's whole life is bounded by its retries: a history of allowed transitions from `received`
-- has at most 16 statuses, and 10 more for each time it went from `failed_retryable` back to
-- `queued`.
pub received-length :
    {t : JobStatus} {seen : List JobStatus}
    → Run received t seen
    → length seen ≤ 16 + 10 * retries seen
received-length {t} h = omega (arith, length-rank h, rank-le t)
