-- ===== src/Domain/Job.antt =====
-- internal/domain/job.go: what a job works on, and the job itself.
use package.text.Mathlib.Text.{◌==◌ as str_eq}
use package.text.Mathlib.TextEquality.{eq_iff}
use vk_agregator.Base.{
  ℕ, String, Bool, true, false, ◌≡◌, ◌↔◌, Option, none, some, List, Uuid, arith, nat_beq,
  if◌then◌else◌,
}
use vk_agregator.Base.Eq.{Comparable}
use vk_agregator.Base.Int.{ℤ, pos, ltb_ℤ}
use vk_agregator.Domain.Billing.{Time}
use vk_agregator.Domain.JobStatus.{JobStatus}

-- `other` is a text that is none of the kinds, in this type and the next.
pub data Modality : Type 0 where
  text image video audio : Modality
  other : String → Modality

pub data OperationType : Type 0 where
  text_generate image_generate image_edit video_generate : OperationType
  video_image_to_video video_extend audio_tts audio_stt image_upscale : OperationType
  other : String → OperationType

-- `Modality.Valid`
unfoldable pub modality_valid : Modality → Bool
modality_valid (Modality.other s) = false
modality_valid _ = true

-- `OperationType.Valid`
unfoldable pub operation_valid : OperationType → Bool
operation_valid (OperationType.other s) = false
operation_valid _ = true

abbrev pub modality_tag : Modality → ℕ
modality_tag text = 0
modality_tag image = 1
modality_tag video = 2
modality_tag audio = 3
modality_tag (Modality.other s) = 4

-- Go's `==` on modalities, which are texts.
abbrev pub modality_beq : Modality → Modality → Bool
modality_beq (Modality.other s) (Modality.other t) = str_eq s t
modality_beq a b = nat_beq (modality_tag a) (modality_tag b)

pub modality_beq_iff : (a b : Modality) → (modality_beq a b ≡ true) ↔ (a ≡ b)
modality_beq_iff (Modality.other s) (Modality.other t) = ground (arith, eq_iff s t)
modality_beq_iff _ b = ground arith

abbrev pub operation_tag : OperationType → ℕ
operation_tag text_generate = 0
operation_tag image_generate = 1
operation_tag image_edit = 2
operation_tag video_generate = 3
operation_tag video_image_to_video = 4
operation_tag video_extend = 5
operation_tag audio_tts = 6
operation_tag audio_stt = 7
operation_tag image_upscale = 8
operation_tag (OperationType.other s) = 9

-- Go's `==` on operations, which are texts.
abbrev pub operation_beq : OperationType → OperationType → Bool
operation_beq (OperationType.other s) (OperationType.other t) = str_eq s t
operation_beq a b = nat_beq (operation_tag a) (operation_tag b)

pub operation_beq_iff : (a b : OperationType) → (operation_beq a b ≡ true) ↔ (a ≡ b)
operation_beq_iff (OperationType.other s) (OperationType.other t) = ground (arith, eq_iff s t)
operation_beq_iff _ b = ground arith

instance abbrev pub operation_key : Comparable OperationType
operation_key = record { same = operation_beq; same_iff = operation_beq_iff }

-- Raw JSON params are a text. Of a raw pricing snapshot only `internal_credits` is read again, so
-- it stands for that number: `none` where the snapshot is empty or no JSON of that shape.
pub record Job : Type 0 where
  pub id : Uuid
  pub user_id : Uuid
  pub account_id : Uuid
  pub source : String
  pub vk_peer_id : ℤ
  pub command_id : Uuid
  pub operation_type : OperationType
  pub modality : Modality
  pub provider_id : Option Uuid
  pub model_id : Option Uuid
  pub status : JobStatus
  pub priority : ℤ
  pub idempotency_key : String
  pub correlation_id : String
  pub input_artifact_ids : List Uuid
  pub output_artifact_ids : List Uuid
  pub params : String
  pub pricing_snapshot : Option ℤ
  pub cost_estimate : ℤ
  pub cost_reserved : ℤ
  pub cost_captured : ℤ
  pub error_code : String
  pub error_message : String
  pub created_at : Time
  pub updated_at : Time
  pub expires_at : Option Time

-- The credits of the snapshot, where they are positive.
unfoldable pub pricing_snapshot_credits : Job → Option ℤ
pricing_snapshot_credits j = elim j.pricing_snapshot [
  | none ↦ none
  | some credits ↦ if ltb_ℤ (pos 0) credits then some credits else none
]

unfoldable pub charge_amount_credits : Job → ℤ
unfolding pricing_snapshot_credits
charge_amount_credits j = elim (pricing_snapshot_credits j) [
  | some credits ↦ credits
  | none ↦ j.cost_reserved
]
