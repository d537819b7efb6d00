-- ===== src/Jobs/Outbox/Relay.antt =====
-- service/outboxrelay/relay.go: pending events become tasks of the worker queue.
pub mod Loop
pub mod Delivery
use vk_agregator.Base.{
  ℕ, suc, String, Bool, true, false, not, Option, none, some, List, [], ◌∷◌, ◌++◌, Uuid,
  if◌then◌else◌,
}
use vk_agregator.Base.Eq.{◌==◌, text_key}
use vk_agregator.Base.Action.{
  Action, Result, ok, err, Error, other, pure, gets, modify, ◌>>=◌, ◌>>◌,
}
use vk_agregator.Domain.Billing.{Time}
use vk_agregator.Domain.Job.{OperationType, Modality}
use vk_agregator.Tx.{run_in_tx}
use vk_agregator.Jobs.Outbox.{OutboxRepo, OutboxEvent, JobPayload, fetch_pending, mark_published}

abbrev pub event_job_queued : String
event_job_queued = "event.job.queued"

-- platform/queue: `Task`, as the relay fills it in.
pub record Task : Type 0 where
  pub job_id : Uuid
  pub operation : OperationType
  pub modality : Modality
  pub correlation_id : String
  pub traceparent : String

-- What a drain reads and writes: the outbox, the tasks that the queue has taken, oldest first, and the
-- call's own variable `published`.
pub record Pipe : Type 0 where
  pub outbox : OutboxRepo
  pub queue : List Task
  pub published : ℕ

abbrev pub on_outbox : {A : Type 0} → Action OutboxRepo A → Action Pipe A
on_outbox m p = let (a, outbox) = m p.outbox in (a, record p { outbox = outbox })

-- What a transaction that did not begin has not run.
abbrev if_begun : Option Error → Pipe → Pipe → Pipe
if_begun (some e) before after = before
if_begun none before after = after

-- `Within` of a manager over a database: the outbox is bound to the transaction, and the queue and the
-- call's variable are outside it, so what they have stays when the transaction is rolled back.
unfoldable pub outbox_tx :
    Option Error → Option Error → Action Pipe (Unit {0}) → Action Pipe (Unit {0})
unfolding run_in_tx
outbox_tx begin commit body p =
    let (r, outbox) =
      run_in_tx begin commit
        (λ outbox.
          ((body (record p { outbox = outbox })).0, (body (record p { outbox = outbox })).1.outbox))
        p.outbox in
    (r, record (if_begun begin p (body p).1) { outbox = outbox })

abbrev pub task_of : JobPayload → Task
task_of p = record {
  job_id = p.job_id;
  operation = p.operation;
  modality = p.modality;
  correlation_id = p.correlation_id;
  traceparent = p.traceparent;
}

-- The queue is a broker, so whether it takes a task is a parameter: `none`, or its error.
module _ (refuses : Task → Option Error) where
  unfoldable pub enqueue : Task → Action Pipe (Unit {0})
  enqueue t p = elim (refuses t) [
    | some e ↦ (err e, p)
    | none ↦ (ok tt, record p { queue = p.queue ++ t ∷ [] })
  ]

  -- `Relay.publish`
  unfoldable pub publish : OutboxEvent → Action Pipe (Unit {0})
  publish e p = if not (e.event_type == event_job_queued) then (ok tt, p) else elim e.payload [
    | none ↦ (err (other "invalid JSON"), p)
    | some body ↦ enqueue (task_of body) p
  ]

  -- One turn of the loop; `clock` gives the time of each turn.
  unfoldable pub drain_event : (ℕ → Time) → OutboxEvent → Action Pipe (Unit {0})
  unfolding publish
  drain_event clock e = do
    publish e
    now ← gets λ p. clock p.published
    on_outbox (mark_published e.id now)
    modify λ p. record p { published = suc p.published }

  unfoldable pub drain_events : (ℕ → Time) → List OutboxEvent → Action Pipe (Unit {0})
  unfolding drain_event
  drain_events clock [] = pure tt
  drain_events clock (e ∷ es) = do drain_event clock e; drain_events clock es

  -- The callback of `Within`.
  unfoldable pub drain_batch : (ℕ → Time) → ℕ → Action Pipe (Unit {0})
  unfolding drain_events
  drain_batch clock batch = do events ← on_outbox (fetch_pending batch); drain_events clock events

  -- `Drain`: it answers the number of published events, and the error.
  unfoldable pub drain :
      (Action Pipe (Unit {0}) → Action Pipe (Unit {0}))
      → (ℕ → Time)
      → ℕ
      → Pipe
      → (ℕ × Result (Unit {0})) × Pipe
  unfolding drain_batch
  drain within clock batch p =
      let (r, p') = within (drain_batch clock batch) (record p { published = 0 }) in
      ((p'.published, r), p')
