-- ===== src/Intake/Create/Queued.antt =====
-- The steps that queue a paid job (service/joborchestrator).
use vk_agregator.Base.{◌≡◌, refl, sym, ap, ◌∙◌, some, [], ◌∷◌, ◌++◌}
use vk_agregator.Base.Int.{ℤ}
use vk_agregator.Base.Dict.{lookup, insert, lookup-insert_self}
use mathlib.Core.Option.{some-injective}
use vk_agregator.Base.Eq.{uuid_key, text_key}
use vk_agregator.Base.Action.{Action, ok, chain_ok, ok_injective, pure, ◌>>=◌, ◌>>◌}
use vk_agregator.Domain.JobStatus.{JobStatus}
use vk_agregator.Domain.Job.{Job}
use vk_agregator.Domain.Billing.{Time}
use vk_agregator.Jobs.Repo.{update, updated_row, with_status}
use vk_agregator.Jobs.Repo.Keys.{update_ok, update_status_won}
use vk_agregator.Jobs.Outbox.{add, as_added, OutboxEvent}
use vk_agregator.Intake.{Repositories, Outcome, on_jobs}
use vk_agregator.Intake.Create.{Draws, job_event, queue_paid, announce, move, at_status}

abbrev pub finish : Draws → Job → Action Repositories Outcome
finish d j = do
  announce d (at_status JobStatus.queued j)
  pure (Outcome.queued (at_status JobStatus.queued j))

abbrev requeue : Draws → Job → Action Repositories Outcome
requeue d j = do move d j JobStatus.credits_reserved JobStatus.queued; finish d j

abbrev record_hold : Draws → Job → ℤ → Action Repositories Job
record_hold d j price = on_jobs (update d.now (record j { cost_reserved = price }))

-- The event that tells the relay of a queued job.
abbrev pub queued_event : Draws → Job → OutboxEvent
queued_event d j = as_added d.queued_event_id d.now (job_event d.traceparent "event.job.queued" j)

requeue_ok :
    (d : Draws) (j : Job) (s : Repositories) (out : Outcome)
    → (requeue d j s).0 ≡ ok out
    → (row : Job) × (lookup j.id s.jobs.by_id ≡ some row)
      × (out ≡ Outcome.queued (at_status JobStatus.queued j))
      × ((requeue d j s).1.jobs.by_id
          ≡ insert j.id (with_status JobStatus.queued "" "" d.now row) s.jobs.by_id)
      × ((requeue d j s).1.outbox ≡ s.outbox ++ queued_event d (at_status JobStatus.queued j) ∷ [])
      × ((requeue d j s).1.billing ≡ s.billing)
unfolding add
requeue_ok d j s out went =
    let (u, won, same) =
      chain_ok (move d j JobStatus.credits_reserved JobStatus.queued) (λ _. finish d j) s out
        went in
    let (row, found, was, moved) =
      update_status_won d.now j.id JobStatus.credits_reserved JobStatus.queued "" "" s.jobs won in
    (
      row,
      found,
      ok_injective (sym went ∙ ap (λ t. t.0) same),
      ap (λ t. t.1.jobs.by_id) same ∙ ap (λ r. r.by_id) moved,
      ap (λ t. t.1.outbox) same,
      ap (λ t. t.1.billing) same,
    )

-- A paid job that is queued: its row is queued and holds the price, its event is the last of the
-- outbox, and the ledger is as the reservation left it.
pub record QueuedPaid (d : Draws) (j : Job) (price : ℤ) (s t : Repositories) (out : Outcome)
    : Type 0 where
  pub job : Job
  pub row : Job
  pub queued : out ≡ Outcome.queued job
  pub same_id : job.id ≡ j.id
  pub reserved : (job.cost_reserved ≡ price) × (job.cost_estimate ≡ j.cost_estimate)
  pub snapshot : job.pricing_snapshot ≡ j.pricing_snapshot
  pub stored : lookup j.id t.jobs.by_id ≡ some row
  pub stored_status : (row.status ≡ JobStatus.queued) × (row.cost_reserved ≡ price)
  pub announced : t.outbox ≡ s.outbox ++ queued_event d job ∷ []
  pub ledger : t.billing ≡ s.billing

updated_fields :
    (now : Time) (cur j : Job)
    → ((updated_row now cur j).id ≡ j.id)
      × ((updated_row now cur j).cost_reserved ≡ j.cost_reserved)
      × ((updated_row now cur j).cost_estimate ≡ j.cost_estimate)
      × ((updated_row now cur j).pricing_snapshot ≡ j.pricing_snapshot)
unfolding updated_row
updated_fields now cur j = (refl, refl, refl, refl)

status_fields :
    (to : JobStatus) (now : Time) (j : Job)
    → ((with_status to "" "" now j).status ≡ to)
      × ((with_status to "" "" now j).cost_reserved ≡ j.cost_reserved)
unfolding with_status
status_fields to now j = (refl, refl)

-- The last two steps, from the state in which the row has been moved to `credits_reserved`.
record_and_requeue_ok :
    (d : Draws) (j : Job) (price : ℤ) (s : Repositories) (out : Outcome)
    → ((record_hold d j price >>= requeue d) s).0 ≡ ok out
    → QueuedPaid d j price s ((record_hold d j price >>= requeue d) s).1 out
record_and_requeue_ok d j price s out went =
    let held = record j { cost_reserved = price } in
    let (j2, kept, same) = chain_ok (record_hold d j price) (requeue d) s out went in
    let (cur, there, is_row, rows) = update_ok d.now held j2 s.jobs kept in
    let s2 = (record_hold d j price s).1 in
    let (row, found, shown, rows', events, ledger) =
      requeue_ok d j2 s2 out (ap (λ t. t.0) (sym same) ∙ went) in
    let (ids, costs, estimates, snapshots) = updated_fields d.now cur held in
    let id : j2.id ≡ j.id = ap (λ x. x.id) is_row ∙ ids in
    let row_is : row ≡ j2 = some-injective row j2 (
      sym found
      ∙ ap (λ m. lookup j2.id m) rows
      ∙ ap (λ k. lookup j2.id (insert k j2 s.jobs.by_id)) (sym id)
      ∙ lookup-insert_self j2.id j2 s.jobs.by_id) in
    let (queued, costs') = status_fields JobStatus.queued d.now row in
    record {
      job = at_status JobStatus.queued j2;
      row = with_status JobStatus.queued "" "" d.now row;
      queued = shown;
      same_id = id;
      reserved =
          (ap (λ x. x.cost_reserved) is_row ∙ costs, ap (λ x. x.cost_estimate) is_row ∙ estimates);
      snapshot = ap (λ x. x.pricing_snapshot) is_row ∙ snapshots;
      stored =
          ap (λ t. lookup j.id t.1.jobs.by_id) same
          ∙ ap (λ m. lookup j.id m) rows'
          ∙ ap
              (λ k.
                lookup j.id (insert k (with_status JobStatus.queued "" "" d.now row) s2.jobs.by_id))
              id
          ∙ lookup-insert_self j.id (with_status JobStatus.queued "" "" d.now row) s2.jobs.by_id;
      stored_status = (
        queued,
        costs' ∙ ap (λ x. x.cost_reserved) row_is ∙ ap (λ x. x.cost_reserved) is_row ∙ costs,
      );
      announced = ap (λ t. t.1.outbox) same ∙ events;
      ledger = ap (λ t. t.1.billing) same ∙ ledger;
    }

pub queue_paid_ok :
    (d : Draws) (j : Job) (price : ℤ) (s : Repositories) (out : Outcome)
    → (queue_paid d j price s).0 ≡ ok out
    → QueuedPaid d j price s (queue_paid d j price s).1 out
unfolding queue_paid
queue_paid_ok d j price s out went =
    let (u, won, same) =
      chain_ok (move d j JobStatus.validated JobStatus.credits_reserved)
        (λ _. record_hold d j price >>= requeue d) s out went in
    let q =
      record_and_requeue_ok d j price (move d j JobStatus.validated JobStatus.credits_reserved s).1
        out (ap (λ t. t.0) (sym same) ∙ went) in
    record {
      job = q.job;
      row = q.row;
      queued = q.queued;
      same_id = q.same_id;
      reserved = q.reserved;
      snapshot = q.snapshot;
      stored = ap (λ t. lookup j.id t.1.jobs.by_id) same ∙ q.stored;
      stored_status = q.stored_status;
      announced = ap (λ t. t.1.outbox) same ∙ q.announced;
      ledger = ap (λ t. t.1.billing) same ∙ q.ledger;
    }
