-- ===== src/Jobs/Tests.antt =====
-- Tests of the job repository, the outbox and its relay, and their theorems at concrete inputs.
use vk_agregator.Base.{ℕ, String, ◌≡◌, refl, none, some, false, [], ◌∷◌, ◌++◌, Option}
use vk_agregator.Base.Lists.{length, any, take}
use vk_agregator.Base.Text.{trim_space, is_space}
use vk_agregator.Base.Action.{ok, err, conflict, Error}
use vk_agregator.Domain.Job.{Job, OperationType, Modality}
use vk_agregator.Domain.JobStatus.{JobStatus}
use vk_agregator.Jobs.Repo.{
  JobRepo, new_job_repo, zero_job, create, new_row, or_unknown, update_status, with_status,
  get_by_idempotency_key,
}
use vk_agregator.Jobs.Repo.Keys.{update_status-once}
use vk_agregator.Jobs.Repo.Claimed.{create-once, start, moves}
use vk_agregator.Jobs.Outbox.{OutboxEvent, OutboxStatus, JobPayload, fetch_pending, mark_published}
use vk_agregator.Jobs.Outbox.Relay.{
  Pipe, Task, drain, drain_batch, drain_events, drain_event, publish, enqueue, outbox_tx,
}
use vk_agregator.Jobs.Outbox.Relay.Delivery.{drain-queue, answer}
use vk_agregator.Jobs.Outbox.Relay.Loop.{first_refusal, tasks_of, due, later, is_unreadable}
use vk_agregator.Jobs.Outbox.Pending as Pending
use vk_agregator.Tx.{run_in_tx}

-- What a run computes with.
runs : Unit {0}
unfolding create new_row or_unknown trim_space is_space update_status with_status drain drain_batch
    outbox_tx run_in_tx drain_events drain_event publish enqueue fetch_pending mark_published
runs = tt

abbrev pub sample : Job
sample = record zero_job {
  id = 4;
  user_id = 7;
  source = " vk ";
  operation_type = OperationType.text_generate;
  modality = Modality.text;
  status = JobStatus.validated;
  idempotency_key = "k";
}

abbrev with_sample : JobRepo
with_sample = (create 9 5 sample new_job_repo).1

created_source : (new_row 9 5 sample).source ≡ "vk"
unfolding runs
created_source = refl

abbrev moved_on : JobRepo
moved_on = (update_status 6 4 JobStatus.validated JobStatus.queued "" "" with_sample).1

create-once_example :
    (get_by_idempotency_key "k" with_sample ≡ (ok (new_row 9 5 sample), with_sample))
    × ((found : Job) × (found.id ≡ (new_row 9 5 sample).id)
        × (get_by_idempotency_key "k" moved_on ≡ (ok found, moved_on)))
    × (create 10 7 (record sample { id = 11 }) moved_on ≡ (err conflict, moved_on))
create-once_example =
    create-once 9 10 5 7 sample (record sample { id = 11 }) new_job_repo moved_on refl refl
      (moves 6 4 JobStatus.validated JobStatus.queued "" "" start)

update_status-once_example :
    let s = (update_status 6 4 JobStatus.validated JobStatus.queued "" "" with_sample).1 in
    update_status 7 4 JobStatus.validated JobStatus.cancelled "" "" s ≡ (err conflict, s)
unfolding runs
update_status-once_example =
    update_status-once 6 7 4 JobStatus.validated JobStatus.queued JobStatus.cancelled "" "" "" ""
      with_sample refl refl

abbrev body : JobPayload
body = record {
  job_id = 4;
  status = JobStatus.queued;
  operation = OperationType.text_generate;
  modality = Modality.text;
  user_id = 7;
  account_id = 7;
  correlation_id = "c";
  traceparent = "";
}

abbrev event : ℕ → String → OutboxEvent
event id kind = record {
  id = id;
  aggregate_type = "job";
  aggregate_id = 4;
  event_type = kind;
  payload = some body;
  status = OutboxStatus.pending;
  attempts = 0;
  next_attempt_at = 0;
  created_at = 0;
  published_at = none;
}

abbrev waiting : Pipe
waiting = record {
  outbox = event 1 "event.job.created" ∷ event 2 "event.job.queued" ∷ [];
  queue = [];
  published = 0;
}

abbrev takes_all : Task → Option Error
takes_all t = none

drained : (drain takes_all (outbox_tx none none) (λ n. 8) 100 waiting).0 ≡ (2, ok tt)
unfolding runs
drained = refl

-- The commit fails after the queue has taken the task.
lost_commit :
    let r = drain takes_all (outbox_tx none (some conflict)) (λ n. 8) 100 waiting in
    (r.0 ≡ (2, err conflict)) × (r.1.outbox ≡ waiting.outbox) × (length r.1.queue ≡ 1)
unfolding runs
lost_commit = (refl, refl, refl)

drain-queue_example :
    let r = drain takes_all (outbox_tx none none) (λ n. 8) 100 waiting in
    (r.0.1 ≡ answer none (first_refusal takes_all (due 100 waiting.outbox)) none)
    × (r.0.1 ≡ ok tt
        → (r.0.0 ≡ length (due 100 waiting.outbox))
          × (r.1.queue ≡ [] ++ tasks_of (due 100 waiting.outbox))
          × (any is_unreadable (due 100 waiting.outbox) ≡ false)
          × (Pending.waiting r.1.outbox ≡ later 100 waiting.outbox))
    × ((x : Error)
        → r.0.1 ≡ err x
        → (r.1.outbox ≡ waiting.outbox)
          × ((k : ℕ) × (r.1.queue ≡ [] ++ tasks_of (take k (due 100 waiting.outbox)))))
drain-queue_example = drain-queue takes_all (λ n. 8) none none 100 waiting refl
