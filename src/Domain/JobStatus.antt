-- ===== src/Domain/JobStatus.antt =====
-- internal/domain/job.go: the statuses of a job and the transitions between them.
pub mod Paths
pub mod Gates
use text.Mathlib.Text.{◌==◌ as str_eq}
use vk_agregator.Base.{ℕ, String, Bool, true, false, Option, none, some, List, [], ◌∷◌, nat_beq}
use vk_agregator.Base.Lists.{any}

-- `other` is a text that is none of the statuses.
pub data JobStatus : Type 0 where
  received validated rejected awaiting_payment credits_reserved : JobStatus
  queued dispatching_provider provider_submitted provider_pending provider_processing : JobStatus
  provider_succeeded provider_failed postprocessing result_ready delivering : JobStatus
  succeeded failed_retryable failed_terminal cancelled expired : JobStatus
  refunded : JobStatus
  other : String → JobStatus

-- The place of a status in the source's list.
abbrev pub tag : JobStatus → ℕ
tag received = 0
tag validated = 1
tag rejected = 2
tag awaiting_payment = 3
tag credits_reserved = 4
tag queued = 5
tag dispatching_provider = 6
tag provider_submitted = 7
tag provider_pending = 8
tag provider_processing = 9
tag provider_succeeded = 10
tag provider_failed = 11
tag postprocessing = 12
tag result_ready = 13
tag delivering = 14
tag succeeded = 15
tag failed_retryable = 16
tag failed_terminal = 17
tag cancelled = 18
tag expired = 19
tag refunded = 20
tag (other s) = 21

-- Go's `==` on statuses, which are texts.
abbrev pub status_beq : JobStatus → JobStatus → Bool
status_beq (other s) (other t) = str_eq s t
status_beq a b = nat_beq (tag a) (tag b)

-- `jobTransitions`, with `none` for a missing key.
unfoldable pub job_transitions : JobStatus → Option (List JobStatus)
job_transitions received = some (validated ∷ rejected ∷ cancelled ∷ [])
job_transitions validated =
    some (awaiting_payment ∷ credits_reserved ∷ queued ∷ rejected ∷ cancelled ∷ [])
job_transitions rejected = some (refunded ∷ [])
job_transitions awaiting_payment = some (credits_reserved ∷ cancelled ∷ expired ∷ [])
job_transitions credits_reserved = some (queued ∷ cancelled ∷ refunded ∷ [])
job_transitions queued = some (dispatching_provider ∷ cancelled ∷ expired ∷ [])
job_transitions dispatching_provider =
    some (provider_submitted ∷ failed_retryable ∷ failed_terminal ∷ [])
job_transitions provider_submitted =
    some (provider_pending ∷ provider_processing ∷ provider_succeeded ∷ provider_failed ∷ [])
job_transitions provider_pending =
    some (provider_processing ∷ provider_succeeded ∷ provider_failed ∷ cancelled ∷ [])
job_transitions provider_processing = some (provider_succeeded ∷ provider_failed ∷ cancelled ∷ [])
job_transitions provider_succeeded =
    some (postprocessing ∷ result_ready ∷ failed_retryable ∷ rejected ∷ [])
job_transitions provider_failed = some (failed_retryable ∷ failed_terminal ∷ refunded ∷ [])
job_transitions postprocessing = some (result_ready ∷ failed_retryable ∷ failed_terminal ∷ [])
job_transitions result_ready = some (delivering ∷ failed_retryable ∷ [])
job_transitions delivering = some (succeeded ∷ failed_retryable ∷ failed_terminal ∷ [])
job_transitions succeeded = some ([])
job_transitions failed_retryable = some (queued ∷ failed_terminal ∷ refunded ∷ [])
job_transitions failed_terminal = some (refunded ∷ [])
job_transitions cancelled = some (refunded ∷ [])
job_transitions expired = some (refunded ∷ [])
job_transitions refunded = some ([])
job_transitions (other s) = none

-- The list that Go's map gives, which is empty for a missing key.
abbrev next_of : Option (List JobStatus) → List JobStatus
next_of none = []
next_of (some next) = next

-- `JobStatus.Valid`
unfoldable pub valid : JobStatus → Bool
unfolding job_transitions
valid s = elim (job_transitions s) [ none ↦ false | some next ↦ true ]

abbrev is_nil : Option (List JobStatus) → Bool
is_nil (some []) = true
is_nil _ = false

unfoldable pub is_terminal : JobStatus → Bool
unfolding job_transitions
is_terminal s = is_nil (job_transitions s)

unfoldable pub is_active_work : JobStatus → Bool
is_active_work received = true
is_active_work validated = true
is_active_work credits_reserved = true
is_active_work queued = true
is_active_work dispatching_provider = true
is_active_work provider_submitted = true
is_active_work provider_pending = true
is_active_work provider_processing = true
is_active_work provider_succeeded = true
is_active_work provider_failed = true
is_active_work postprocessing = true
is_active_work result_ready = true
is_active_work delivering = true
is_active_work failed_retryable = true
is_active_work _ = false

unfoldable pub active_work_job_statuses : List JobStatus
active_work_job_statuses =
    received ∷ validated ∷ credits_reserved ∷ queued ∷ dispatching_provider ∷ provider_submitted
    ∷ provider_pending ∷ provider_processing ∷ provider_succeeded ∷ provider_failed ∷ postprocessing
    ∷ result_ready ∷ delivering ∷ failed_retryable ∷ []

unfoldable pub can_transition_to : JobStatus → JobStatus → Bool
unfolding job_transitions
can_transition_to s target =
    any (λ allowed. status_beq allowed target) (next_of (job_transitions s))

-- `AllowedNextStatuses`, a copy of the list.
unfoldable pub allowed_next_statuses : JobStatus → List JobStatus
unfolding job_transitions
allowed_next_statuses s = next_of (job_transitions s)
