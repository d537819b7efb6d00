-- ===== src/Intake/Create.antt =====
-- service/joborchestrator/orchestrator.go: `CreateJob`.
pub mod Rollback
pub mod Claims
pub mod Identity
pub mod Retry
pub mod Queued
pub mod Payment
use vk_agregator.Base.{
  String, Bool, true, false, Option, none, some, List, [], ◌∷◌, Uuid, nil_uuid, if◌then◌else◌,
}
use vk_agregator.Base.Int.{ℤ, pos, int_beq}
use vk_agregator.Base.Action.{
  Action, Result, ok, err, Error, is_not_found, is_insufficient_credits, pure, raise, of_result,
  try, ◌>>=◌, ◌>>◌,
}
use vk_agregator.Domain.Billing.{Time, CreditReservation}
use vk_agregator.Domain.JobStatus.{JobStatus}
use vk_agregator.Domain.Job.{Job}
use vk_agregator.Billing.{Draw}
use vk_agregator.Billing.Service.{reserve_with_owner}
use vk_agregator.Jobs.Repo.{create, update_status, update, get_by_idempotency_key, or_unknown}
use vk_agregator.Jobs.Outbox.{OutboxEvent, OutboxStatus, JobPayload, add}
use vk_agregator.Intake.{
  Repositories, on_jobs, on_outbox, on_billing, CreateJobInput, Orchestrator, Outcome,
}
use vk_agregator.Intake.Checks.{
  Price, owner_account_id, validate_input_artifacts, resolve_video_route, with_route, price_job,
  check_capacity,
}

-- The identifiers and times that a call takes, and its trace.
pub record Draws : Type 0 where
  pub job_id : Uuid
  pub created_event_id : Uuid
  pub queued_event_id : Uuid
  pub account : Draw
  pub hold : Draw
  pub now : Time
  pub traceparent : String

unfoldable pub job_event : String → String → Job → OutboxEvent
job_event trace kind j = record {
  id = nil_uuid;
  aggregate_type = "job";
  aggregate_id = j.id;
  event_type = kind;
  payload = some (record {
    job_id = j.id;
    status = j.status;
    operation = j.operation_type;
    modality = j.modality;
    user_id = j.user_id;
    account_id = j.account_id;
    correlation_id = j.correlation_id;
    traceparent = trace;
  });
  status = OutboxStatus.unset;
  attempts = 0;
  next_attempt_at = 0;
  created_at = 0;
  published_at = none;
}

-- The job that is asked for, at its price.
unfoldable pub new_job : Draws → CreateJobInput → String → Price → Job
new_job d i source price = record {
  id = d.job_id;
  user_id = i.user_id;
  account_id = owner_account_id i.user_id i.account_id;
  source = source;
  vk_peer_id = i.vk_peer_id;
  command_id = i.command_id;
  operation_type = i.operation;
  modality = i.modality;
  provider_id = none;
  model_id = none;
  status = JobStatus.validated;
  priority = pos 0;
  idempotency_key = i.idempotency_key;
  correlation_id = i.correlation_id;
  input_artifact_ids = i.input_artifact_ids;
  output_artifact_ids = [];
  params = i.params;
  pricing_snapshot = price.1;
  cost_estimate = price.0;
  cost_reserved = pos 0;
  cost_captured = pos 0;
  error_code = "";
  error_message = "";
  created_at = 0;
  updated_at = 0;
  expires_at = none;
}

abbrev pub at_status : JobStatus → Job → Job
at_status s j = record j { status = s }

abbrev pub announce : Draws → Job → Action Repositories (Unit {0})
announce d j =
    on_outbox (add d.queued_event_id d.now (job_event d.traceparent "event.job.queued" j))

abbrev pub move : Draws → Job → JobStatus → JobStatus → Action Repositories (Unit {0})
move d j from to = on_jobs (update_status d.now j.id from to "" "")

-- Inside the transaction, a job that costs nothing.
unfoldable pub queue_free : Draws → Job → Action Repositories Outcome
queue_free d j = do
  move d j JobStatus.validated JobStatus.queued
  announce d (at_status JobStatus.queued j)
  pure (Outcome.queued (at_status JobStatus.queued j))

-- One whose credits are held.
unfoldable pub queue_paid : Draws → Job → ℤ → Action Repositories Outcome
queue_paid d j price = do
  move d j JobStatus.validated JobStatus.credits_reserved
  j' ← on_jobs (update d.now (record j { cost_reserved = price }))
  move d j' JobStatus.credits_reserved JobStatus.queued
  announce d (at_status JobStatus.queued j')
  pure (Outcome.queued (at_status JobStatus.queued j'))

-- One whose credits cannot be held.
unfoldable pub park : Draws → Job → Action Repositories Outcome
park d j = do
  on_jobs (
      update_status d.now j.id JobStatus.validated JobStatus.awaiting_payment "insufficient_credits"
        "not enough credits to reserve")
  pure (Outcome.awaiting_payment (at_status JobStatus.awaiting_payment j))

abbrev pub after_reservation :
    Draws → Job → ℤ → Result CreditReservation → Action Repositories Outcome
after_reservation d j price (ok hold) = queue_paid d j price
after_reservation d j price (err e) = if is_insufficient_credits e then park d j else raise e

module _ (uuid_string : Uuid → String) (o : Orchestrator) where
  abbrev pub hold_credits : Draws → CreateJobInput → Job → ℤ → Action Repositories CreditReservation
  hold_credits d i j price = on_billing (
      reserve_with_owner uuid_string o.billing d.account d.hold i.user_id
        (owner_account_id i.user_id i.account_id) j.id price)

  unfoldable pub pay : Draws → CreateJobInput → Job → ℤ → Action Repositories Outcome
  pay d i j price = do held ← try (hold_credits d i j price); after_reservation d j price held

  -- The callback of `Within`.
  unfoldable pub persist : Draws → CreateJobInput → Job → ℤ → Action Repositories Outcome
  persist d i wanted price = do
    j ← on_jobs (create d.job_id d.now wanted)
    on_outbox (add d.created_event_id d.now (job_event d.traceparent "event.job.created" j))
    if int_beq price (pos 0) then queue_free d j else pay d i j price

  module _ (within : Action Repositories Outcome → Action Repositories Outcome) where
    -- What follows the look-up of the idempotency key, where it finds no job.
    unfoldable pub create_new : Draws → CreateJobInput → Action Repositories Outcome
    create_new d i r = elim (validate_input_artifacts o i) [
      | err e ↦ (err e, r)
      | ok _ ↦ elim (resolve_video_route o i source) [
        | err e ↦ (err e, r)
        | ok route ↦ elim (price_job o (with_route route i)) [
          | err e ↦ (err e, r)
          | ok price ↦ elim (check_capacity o (with_route route i) source price.0 r.jobs) [
            | err e ↦ (err e, r)
            | ok _ ↦
                within
                  (persist d (with_route route i) (new_job d (with_route route i) source price)
                    price.0)
                  r
          ]
        ]
      ]
    ]
      where
        source : String
        source = or_unknown i.source

    unfoldable pub create_job : Draws → CreateJobInput → Action Repositories Outcome
    create_job d i = do
      found ← try (on_jobs (get_by_idempotency_key i.idempotency_key))
      elim found [
        | ok j ↦ pure (Outcome.existing j)
        | err e ↦ if is_not_found e then create_new d i else raise e
      ]
