-- ===== src/Intake/Checks.antt =====
-- service/joborchestrator/orchestrator.go: what is checked and priced before anything is written.
use vk_agregator.Base.{
  String, Bool, true, false, not, ◌&&◌, ◌||◌, Option, none, some, List, [], ◌∷◌, Uuid, nil_uuid,
  if◌then◌else◌,
}
use vk_agregator.Base.Text.{trim_space}
use vk_agregator.Base.Eq.{◌==◌, uuid_key, text_key}
use vk_agregator.Base.Int.{ℤ, pos, ltb_ℤ, leb_ℤ, int_beq}
use vk_agregator.Base.Action.{
  Result, ok, err, invalid_input_artifact, is_not_found, backend_price_required, cost_cap_exceeded,
  active_job_limit_exceeded, other,
}
use vk_agregator.Domain.Job.{OperationType, Modality, operation_beq}
use vk_agregator.Pricing.{snapshot_valid}
use vk_agregator.Billing.Service.{estimate}
use vk_agregator.Jobs.Repo.{JobRepo, count_active_by_user_operation}
use vk_agregator.Intake.{
  Artifact, ArtifactKind, MediaType, ArtifactStatus, CapacityCheckInput, VideoRouteCheckInput,
  VideoRouteResolution, CreateJobInput, Orchestrator,
}

-- `ownerAccountID`
abbrev pub owner_account_id : Uuid → Uuid → Uuid
owner_account_id user account = if not (account == nil_uuid) then account else user

abbrev is_input : ArtifactKind → Bool
is_input ArtifactKind.input = true
is_input _ = false

abbrev is_image : MediaType → Bool
is_image MediaType.image = true
is_image _ = false

abbrev is_ready : ArtifactStatus → Bool
is_ready ArtifactStatus.ready = true
is_ready _ = false

unfoldable pub input_artifact_owned_by : Artifact → Uuid → Uuid → Bool
input_artifact_owned_by a user account =
    if not (a.owner_account_id == nil_uuid)
    then a.owner_account_id == owner_account_id user account
    else a.owner_user_id == user

-- The tests of one artifact that was found.
unfoldable pub input_artifact_fits : CreateJobInput → Artifact → Bool
input_artifact_fits i a =
    input_artifact_owned_by a i.user_id i.account_id
    && is_input a.kind
    && is_image a.media_type
    && is_ready a.status
    && not (trim_space a.storage_bucket == "" || trim_space a.storage_key == "")

-- One turn of the loop.
unfoldable pub validate_input_artifact :
    (Uuid → Result Artifact) → CreateJobInput → Uuid → Result (Unit {0})
validate_input_artifact get i id =
    if id == nil_uuid then err invalid_input_artifact else elim (get id) [
      | err e ↦ if is_not_found e then err invalid_input_artifact else err e
      | ok a ↦ if input_artifact_fits i a then ok tt else err invalid_input_artifact
    ]

unfoldable pub validate_each :
    (Uuid → Result Artifact) → CreateJobInput → List Uuid → Result (Unit {0})
validate_each get i [] = ok tt
validate_each get i (id ∷ ids) = elim (validate_input_artifact get i id) [
  | err e ↦ err e
  | ok _ ↦ validate_each get i ids
]

abbrev validate_with : Option (Uuid → Result Artifact) → CreateJobInput → Result (Unit {0})
validate_with none i = err invalid_input_artifact
validate_with (some get) i = validate_each get i i.input_artifact_ids

abbrev is_empty : List Uuid → Bool
is_empty [] = true
is_empty (id ∷ ids) = false

unfoldable pub validate_input_artifacts : Orchestrator → CreateJobInput → Result (Unit {0})
validate_input_artifacts o i =
    if is_empty i.input_artifact_ids then ok tt else validate_with o.artifacts i

abbrev is_visual : Modality → Bool
is_visual Modality.video = true
is_visual Modality.image = true
is_visual _ = false

abbrev is_generation : OperationType → Bool
is_generation OperationType.image_generate = true
is_generation OperationType.image_edit = true
is_generation OperationType.video_generate = true
is_generation OperationType.video_image_to_video = true
is_generation OperationType.video_extend = true
is_generation _ = false

unfoldable pub requires_backend_price : OperationType → Modality → Bool
requires_backend_price op modality = if is_visual modality then true else is_generation op

abbrev pub route_check : CreateJobInput → String → VideoRouteCheckInput
route_check i source = record {
  account_id = owner_account_id i.user_id i.account_id;
  user_id = i.user_id;
  source = source;
  operation = i.operation;
  modality = i.modality;
  params = i.params;
  input_artifact_ids = i.input_artifact_ids;
}

abbrev no_route : VideoRouteResolution
no_route = record { resolved = false; params = ""; internal_cost_credits = pos 0 }

abbrev validated_route :
    Option (VideoRouteCheckInput → Result (Unit {0}))
    → VideoRouteCheckInput
    → Result VideoRouteResolution
validated_route none check = ok no_route
validated_route (some validate) check = elim (validate check) [ err e ↦ err e | ok _ ↦ ok no_route ]

unfoldable pub resolve_video_route :
    Orchestrator → CreateJobInput → String → Result VideoRouteResolution
resolve_video_route o i source = elim o.video_route_resolver [
  | some resolve ↦ resolve (route_check i source)
  | none ↦ validated_route o.video_route_validator (route_check i source)
]

abbrev pub with_route : VideoRouteResolution → CreateJobInput → CreateJobInput
with_route route i = if route.resolved then record i { params = route.params } else i

-- A price, and the credits of the snapshot that is stored with the job, if one is.
abbrev pub Price : Type 0
Price = ℤ × Option ℤ

abbrev pub offered_price : CreateJobInput → Result Price
offered_price i =
    if snapshot_valid i.pricing_snapshot
    then (if ltb_ℤ (pos 0) i.cost_estimate_credits
          && not (int_beq i.cost_estimate_credits i.pricing_snapshot.credits)
        then err (other "joborchestrator: pricing snapshot cost does not match estimate")
        else ok (i.pricing_snapshot.credits, some i.pricing_snapshot.credits))
    else if ltb_ℤ (pos 0) i.cost_estimate_credits
    then ok (i.cost_estimate_credits, none)
    else ok (pos 0, none)

abbrev pub fallback_price : Orchestrator → CreateJobInput → Option ℤ → Result Price
fallback_price o i stored =
    if requires_backend_price i.operation i.modality
    then err backend_price_required
    else elim (estimate o.billing i.operation) [ err e ↦ err e | ok price ↦ ok (price, stored) ]

abbrev pub within_cost_cap : Orchestrator → Price → Result Price
within_cost_cap o price =
    if ltb_ℤ (pos 0) o.max_cost && ltb_ℤ o.max_cost price.0 then err cost_cap_exceeded else ok price

-- The part of `CreateJob` that fixes the price.
unfoldable pub price_job : Orchestrator → CreateJobInput → Result Price
price_job o i = elim (offered_price i) [
  | err e ↦ err e
  | ok offered ↦
      elim (if int_beq offered.0 (pos 0) then fallback_price o i offered.1 else ok offered) [
        | err e ↦ err e
        | ok price ↦ within_cost_cap o price
      ]
]

abbrev too_many_videos : Orchestrator → CreateJobInput → JobRepo → Bool
too_many_videos o i r =
    ltb_ℤ (pos 0) o.max_active_video_jobs_per_user
    && operation_beq i.operation OperationType.video_generate
    && elim (count_active_by_user_operation (owner_account_id i.user_id i.account_id)
        OperationType.video_generate r).0 [
          | ok active ↦ leb_ℤ o.max_active_video_jobs_per_user (pos active)
          | err e ↦ false
        ]

abbrev pub capacity_check : CreateJobInput → String → ℤ → CapacityCheckInput
capacity_check i source price = record {
  user_id = i.user_id;
  account_id = owner_account_id i.user_id i.account_id;
  source = source;
  operation = i.operation;
  modality = i.modality;
  estimate = price;
}

-- It reads the job repository and writes nothing.
unfoldable pub check_capacity :
    Orchestrator → CreateJobInput → String → ℤ → JobRepo → Result (Unit {0})
check_capacity o i source price r =
    if too_many_videos o i r
    then err active_job_limit_exceeded
    else elim o.capacity_guard [ none ↦ ok tt | some check ↦ check (capacity_check i source price) ]
