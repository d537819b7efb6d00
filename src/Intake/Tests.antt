-- ===== src/Intake/Tests.antt =====
-- Tests of job intake (service/joborchestrator), and its theorems at concrete inputs.
use vk_agregator.Base.{suc, String, Uuid, ◌≡◌, refl, none, some, [], if◌then◌else◌}
use vk_agregator.Base.Int.{pos, ◌+ℤ◌, ◌-ℤ◌}
use vk_agregator.Base.Int64.{◌+₆₄◌, ◌-₆₄◌, neg64, wrap64}
use vk_agregator.Base.Text.{trim_space, is_space}
use vk_agregator.Base.Lists.{length}
use vk_agregator.Base.Eq.{◌==◌, uuid_key}
use vk_agregator.Base.Action.{ok, err, other, backend_price_required}
use vk_agregator.Domain.Job.{Job, OperationType, Modality}
use vk_agregator.Domain.JobStatus.{JobStatus}
use vk_agregator.Pricing.{
  PricingSnapshot, snapshot_valid, identity_unit_conversion, default_multiplier, FloorUnit,
}
use vk_agregator.Pricing.Tariff.{image_key}
use vk_agregator.Billing.{Draw, user_currency_key, grant_open_key, reserve_entry_key, resv_key}
use vk_agregator.Billing.Repo.{
  new_billing_repo, create_account, append_locked, reserve, available_locked, placed,
  get_account_by_user,
}
use vk_agregator.Billing.Service.{
  new_service, estimate, reserve_with_owner, ensure_account_with, create_or_read,
}
use vk_agregator.Jobs.Repo.{
  new_job_repo, create, new_row, or_unknown, update_status, with_status, update, updated_row,
  get_by_idempotency_key,
}
use vk_agregator.Jobs.Outbox.{add}
use vk_agregator.Tx.{run_in_tx, within_memory}
use vk_agregator.Intake.{Repositories, CreateJobInput, Orchestrator, Outcome}
use vk_agregator.Intake.Checks.{
  validate_input_artifacts, resolve_video_route, price_job, requires_backend_price, check_capacity,
}
use vk_agregator.Intake.Create.{
  Draws, create_job, create_new, persist, new_job, job_event, queue_free, queue_paid, park, pay,
}
use vk_agregator.Intake.Create.Rollback.{create_job-rollback}
use vk_agregator.Intake.Create.Retry.{create_job-once}
use vk_agregator.Intake.Create.Payment.{PaidAndAnnounced, create_job-PaidAndAnnounced}

-- What a run computes with.
runs : Unit {0}
unfolding create_account append_locked reserve available_locked placed get_account_by_user estimate
    reserve_with_owner ensure_account_with create_or_read user_currency_key grant_open_key
    reserve_entry_key resv_key create new_row or_unknown update_status with_status update
    updated_row get_by_idempotency_key add run_in_tx within_memory validate_input_artifacts
    resolve_video_route price_job requires_backend_price check_capacity create_job create_new
    persist new_job job_event queue_free queue_paid park pay snapshot_valid trim_space is_space
    ◌+₆₄◌ ◌-₆₄◌ neg64 wrap64 ◌+ℤ◌ ◌-ℤ◌
runs = tt

abbrev id_text : Uuid → String
id_text id =
    if id == 2 then "two" else if id == 4 then "four" else if id == 7 then "seven" else "nine"

abbrev draw : Uuid → Draw
draw n = record { id = n; entry_id = suc n; now = 5 }

abbrev no_snapshot : PricingSnapshot
no_snapshot = record {
  version = pos 0;
  source = "";
  key = image_key "" "";
  floor = record { amount = pos 0; unit = FloorUnit.unknown "" };
  multiplier = default_multiplier;
  unit_conversion = identity_unit_conversion;
  credits = pos 0;
  internal_credit_cap = pos 0;
  floor_amount_cap = pos 0;
  default_display_credits = pos 0;
  calculation_description = "";
}

abbrev ask : CreateJobInput
ask = record {
  user_id = 7;
  account_id = 0;
  source = " vk";
  vk_peer_id = pos 1;
  command_id = 3;
  operation = OperationType.image_generate;
  modality = Modality.image;
  idempotency_key = "k";
  correlation_id = "c";
  input_artifact_ids = [];
  params = "";
  cost_estimate_credits = pos 25;
  pricing_snapshot = no_snapshot;
}

abbrev intake : Orchestrator
intake = record {
  billing = new_service;
  max_cost = pos 100;
  max_active_video_jobs_per_user = pos 0;
  capacity_guard = none;
  video_route_validator = none;
  video_route_resolver = none;
  artifacts = none;
}

abbrev draws : Draws
draws = record {
  job_id = 9;
  created_event_id = 11;
  queued_event_id = 12;
  account = draw 2;
  hold = draw 4;
  now = 5;
  traceparent = "";
}

abbrev nothing : Repositories
nothing = record { jobs = new_job_repo; outbox = []; billing = new_billing_repo }

abbrev made : CreateJobInput → Repositories
made i = (create_job id_text intake within_memory draws i nothing).1

-- A new user has 30 credits; 25 are held, and the job is announced twice.
made_events : length (made ask).outbox ≡ 2
unfolding runs
made_events = refl

made_available : available_locked 2 (made ask).billing ≡ pos 5
unfolding runs
made_available = refl

-- A job of 31 credits waits for payment, and is announced once.
parked_events : length (made (record ask { cost_estimate_credits = pos 31 })).outbox ≡ 1
unfolding runs
parked_events = refl

unpriced :
    (create_job id_text intake within_memory draws
      (record ask { cost_estimate_credits = pos 0 })
      nothing).0
    ≡ err backend_price_required
unfolding runs
unpriced = refl

create_job-rollback_example :
    (create_job id_text intake (run_in_tx none (some (other "commit"))) draws ask nothing).1
    ≡ nothing
unfolding runs
create_job-rollback_example =
    create_job-rollback id_text intake none (some (other "commit")) draws ask nothing
      (other "commit") refl

create_job-once_example :
    let t = create_job id_text intake (run_in_tx none none) draws ask nothing in
    (j : Job) × (j.id ≡ 9)
    × (get_by_idempotency_key ask.idempotency_key t.1.jobs ≡ (ok j, t.1.jobs))
    × (create_job id_text intake (run_in_tx none none) draws (record ask { params = "x" }) t.1
        ≡ (ok (Outcome.existing j), t.1))
unfolding runs
create_job-once_example =
    create_job-once id_text intake intake none none none none draws draws ask
      (record ask { params = "x" }) nothing
      (Outcome.queued (record (new_row 9 5 (new_job draws ask "vk" (pos 25, none))) {
        cost_reserved = pos 25;
        status = JobStatus.queued;
      }))
      refl refl

create_job-PaidAndAnnounced_example :
    PaidAndAnnounced draws
      (record (new_row 9 5 (new_job draws ask "vk" (pos 25, none))) {
        cost_reserved = pos 25;
        status = JobStatus.queued;
      })
      (create_job id_text intake (run_in_tx none none) draws ask nothing).1
unfolding runs
create_job-PaidAndAnnounced_example =
    create_job-PaidAndAnnounced id_text intake none none draws ask nothing
      (record (new_row 9 5 (new_job draws ask "vk" (pos 25, none))) {
        cost_reserved = pos 25;
        status = JobStatus.queued;
      })
      refl refl
