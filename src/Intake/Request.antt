-- ===== src/Intake/Request.antt =====
-- service/joborchestrator/orchestrator.go: what a job is asked for with, and the guards that an
-- orchestrator is built with.
use vk_agregator.Base.{String, Bool, Option, List, Uuid}
use vk_agregator.Base.Int.{ℤ}
use vk_agregator.Base.Action.{Result}
use vk_agregator.Domain.Job.{OperationType, Modality, Job}
use vk_agregator.Pricing.{PricingSnapshot}
use vk_agregator.Billing.Service.{Service}

-- domain/artifact.go; the texts that are none of these are `other`.
pub data ArtifactKind : Type 0 where
  input intermediate output : ArtifactKind
  other : String → ArtifactKind

pub data MediaType : Type 0 where
  image video audio text document : MediaType
  other : String → MediaType

pub data ArtifactStatus : Type 0 where
  pending stored scanning ready failed deleted : ArtifactStatus
  other : String → ArtifactStatus

-- The fields of an artifact that job intake reads.
pub record Artifact : Type 0 where
  pub id : Uuid
  pub owner_user_id : Uuid
  pub owner_account_id : Uuid
  pub kind : ArtifactKind
  pub media_type : MediaType
  pub storage_bucket : String
  pub storage_key : String
  pub status : ArtifactStatus

pub record CapacityCheckInput : Type 0 where
  pub user_id : Uuid
  pub account_id : Uuid
  pub source : String
  pub operation : OperationType
  pub modality : Modality
  pub estimate : ℤ

pub record VideoRouteCheckInput : Type 0 where
  pub account_id : Uuid
  pub user_id : Uuid
  pub source : String
  pub operation : OperationType
  pub modality : Modality
  pub params : String
  pub input_artifact_ids : List Uuid

-- The route's own snapshot labels metrics only, and is left out.
pub record VideoRouteResolution : Type 0 where
  pub resolved : Bool
  pub params : String
  pub internal_cost_credits : ℤ

pub record CreateJobInput : Type 0 where
  pub user_id : Uuid
  pub account_id : Uuid
  pub source : String
  pub vk_peer_id : ℤ
  pub command_id : Uuid
  pub operation : OperationType
  pub modality : Modality
  pub idempotency_key : String
  pub correlation_id : String
  pub input_artifact_ids : List Uuid
  pub params : String
  pub cost_estimate_credits : ℤ
  pub pricing_snapshot : PricingSnapshot

-- The guards are interfaces, `none` where none is installed. A refusal is an error.
pub record Orchestrator : Type 0 where
  pub billing : Service
  pub max_cost : ℤ
  pub max_active_video_jobs_per_user : ℤ
  pub capacity_guard : Option (CapacityCheckInput → Result (Unit {0}))
  pub video_route_validator : Option (VideoRouteCheckInput → Result (Unit {0}))
  pub video_route_resolver : Option (VideoRouteCheckInput → Result VideoRouteResolution)
  pub artifacts : Option (Uuid → Result Artifact)

-- What `CreateJob` returns when it returns a job: one that was there, one that it queued, or one that
-- waits for payment, which comes with `ErrInsufficientCredits`.
pub data Outcome : Type 0 where
  existing queued awaiting_payment : Job → Outcome

abbrev pub job_of : Outcome → Job
job_of (Outcome.existing j) = j
job_of (Outcome.queued j) = j
job_of (Outcome.awaiting_payment j) = j
