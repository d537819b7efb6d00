-- ===== src/Intake/Create/Identity.antt =====
-- The job that `CreateJob` returns is the one that it stores (service/joborchestrator).
use vk_agregator.Base.{
  String, ◌≡◌, sym, ap, ◌∙◌, inl, inr, Uuid, if◌then◌else◌, arith, Bool-cases, Option-cases,
}
use vk_agregator.Base.Int.{ℤ, pos, int_beq}
use vk_agregator.Base.Dict.{lookup, lookup_or, lookup-insert_self}
use vk_agregator.Base.Eq.{text_key, uuid_key}
use vk_agregator.Base.Action.{Result, ok, err, is_insufficient_credits, raise}
use vk_agregator.Base.Preserves.{
  Preserves, chain-Preserves, then-Preserves, if-Preserves, raise-Preserves, try-Preserves,
  preserving,
}
use vk_agregator.Domain.JobStatus.{JobStatus}
use vk_agregator.Domain.Job.{Job}
use vk_agregator.Domain.Billing.{CreditReservation}
use vk_agregator.Jobs.Repo.{zero_job, new_row, store_new, update, update_status}
use vk_agregator.Jobs.Repo.Claimed.{row_id, IsKept, update_status-IsKept, update-IsKept}
use vk_agregator.Jobs.Repo.Keys.{store_new-by_id}
use vk_agregator.Jobs.Outbox.{add, OutboxEvent}
use vk_agregator.Intake.{
  Repositories, CreateJobInput, Orchestrator, Outcome, job_of, on_jobs, on_outbox,
}
use vk_agregator.Intake.Create.{
  Draws, job_event, persist, queue_free, queue_paid, park, pay, after_reservation, move,
  hold_credits,
}
use vk_agregator.Intake.Create.Claims.{carry_on, persist_fresh}
use vk_agregator.Intake.Create.Queued.{queue_paid_ok}

-- A job of that identifier is stored under it.
abbrev pub IsStored : Uuid → Repositories → Type 0
IsStored id r = IsKept id r.jobs

module _ (id : Uuid) (d : Draws) where
  moves : (j : Job) (from to : JobStatus) → Preserves (IsStored id) (move d j from to)
  moves j from to = record {
    kept = λ r h. update_status-IsKept id j.id from to "" "" d.now r.jobs h;
  }

  parks :
      (j : Job) (from to : JobStatus) (code message : String)
      → Preserves (IsStored id) (on_jobs (update_status d.now j.id from to code message))
  parks j from to code message = record {
    kept = λ r h. update_status-IsKept id j.id from to code message d.now r.jobs h;
  }

  updates : (j : Job) → Preserves (IsStored id) (on_jobs (update d.now j))
  updates j = record { kept = λ r h. update-IsKept id d.now j r.jobs h }

  adds : (i : Uuid) (e : OutboxEvent) → Preserves (IsStored id) (on_outbox (add i d.now e))
  unfolding add
  adds i e = record { kept = λ r h. h }

  free-Preserves : (j : Job) → Preserves (IsStored id) (queue_free d j)
  unfolding queue_free
  free-Preserves j = search (preserving, moves, adds) depth 12

  paid-Preserves : (j : Job) (price : ℤ) → Preserves (IsStored id) (queue_paid d j price)
  unfolding queue_paid
  paid-Preserves j price = search (preserving, moves, updates, adds) depth 14

  park-Preserves : (j : Job) → Preserves (IsStored id) (park d j)
  unfolding park
  park-Preserves j = search (preserving, parks) depth 12

  after-Preserves :
      (j : Job) (price : ℤ) (held : Result CreditReservation)
      → Preserves (IsStored id) (after_reservation d j price held)
  after-Preserves j price (ok hold) = paid-Preserves j price
  after-Preserves j price (err e) =
      if-Preserves {test = is_insufficient_credits e} (λ _. park-Preserves j)
        (λ _. raise-Preserves e)

free_id :
    (d : Draws) (j : Job) (out : Outcome) (s : Repositories)
    → (queue_free d j s).0 ≡ ok out
    → (job_of out).id ≡ j.id
unfolding queue_free update_status add
free_id d j out s went = ground (arith, went)

park_id :
    (d : Draws) (j : Job) (out : Outcome) (s : Repositories)
    → (park d j s).0 ≡ ok out
    → (job_of out).id ≡ j.id
unfolding park update_status
park_id d j out s went = ground (arith, went)

paid_id :
    (d : Draws) (j : Job) (price : ℤ) (out : Outcome) (s : Repositories)
    → (queue_paid d j price s).0 ≡ ok out
    → (job_of out).id ≡ j.id
paid_id d j price out s went =
    let q = queue_paid_ok d j price s out went in ap (λ x. (job_of x).id) q.queued ∙ q.same_id

after_id :
    (d : Draws) (j : Job) (price : ℤ) (held : Result CreditReservation) (out : Outcome)
    (s : Repositories)
    → (after_reservation d j price held s).0 ≡ ok out
    → (job_of out).id ≡ j.id
after_id d j price (ok hold) out s went = paid_id d j price out s went
after_id d j price (err e) out s went = elim (Bool-cases (is_insufficient_credits e)) [
  | inl poor ↦
      park_id d j out s (ap (λ b. ((if b then park d j else raise e) s).0) (sym poor) ∙ went)
  | inr not_poor ↦
      absurd
        (let lost = ap (λ b. ((if b then park d j else raise e) s).0) (sym not_poor) ∙ went in cc)
]

module _ (uuid_string : Uuid → String) (o : Orchestrator) where
  holds :
      (id : Uuid) (d : Draws) (i : CreateJobInput) (j : Job) (price : ℤ)
      → Preserves (IsStored id) (hold_credits uuid_string o d i j price)
  holds id d i j price = record { kept = λ r h. h }

  pay-Preserves :
      (id : Uuid) (d : Draws) (i : CreateJobInput) (j : Job) (price : ℤ)
      → Preserves (IsStored id) (pay uuid_string o d i j price)
  unfolding pay
  pay-Preserves id d i j price =
      chain-Preserves (try-Preserves (holds id d i j price)) (after-Preserves id d j price)

  carry_on-Preserves :
      (id : Uuid) (d : Draws) (i : CreateJobInput) (price : ℤ) (j : Job)
      → Preserves (IsStored id) (carry_on uuid_string o d i price j)
  carry_on-Preserves id d i price j =
      then-Preserves (adds id d d.created_event_id (job_event d.traceparent "event.job.created" j))
        (if-Preserves {test = int_beq price (pos 0)} (λ _. free-Preserves id d j)
          (λ _. pay-Preserves id d i j price))

  carry_on_id :
      (d : Draws) (i : CreateJobInput) (price : ℤ) (j : Job) (out : Outcome) (s : Repositories)
      → (carry_on uuid_string o d i price j s).0 ≡ ok out
      → (job_of out).id ≡ j.id
  unfolding pay add
  carry_on_id d i price j out s went =
      let added =
        (on_outbox (add d.created_event_id d.now (job_event d.traceparent "event.job.created" j))
          s).1 in
      let paid = hold_credits uuid_string o d i j price added in
      elim (Bool-cases (int_beq price (pos 0))) [
        | inl free ↦ free_id d j out added (
            ap (λ b. ((if b then queue_free d j else pay uuid_string o d i j price) added).0)
              (sym free)
            ∙ went)
        | inr priced ↦ after_id d j price paid.0 out paid.1 (
            ap (λ b. ((if b then queue_free d j else pay uuid_string o d i j price) added).0)
              (sym priced)
            ∙ went)
      ]

  -- A transaction body that answers `ok` answers with the job that it has stored.
  pub persist-IsStored :
      (d : Draws) (i : CreateJobInput) (wanted : Job) (price : ℤ) (r : Repositories) (out : Outcome)
      → (persist uuid_string o d i wanted price r).0 ≡ ok out
      → ((job_of out).id ≡ (new_row d.job_id d.now wanted).id)
        × IsStored (new_row d.job_id d.now wanted).id (persist uuid_string o d i wanted price r).1
  persist-IsStored d i wanted price r out went =
      let row = new_row d.job_id d.now wanted in
      let (_, same) = persist_fresh uuid_string o d i wanted price r out went in
      let s = record r { jobs = store_new row r.jobs } in
      let stored : IsStored row.id s = ap row_id (
        ap (λ m. lookup row.id m) (store_new-by_id row r.jobs)
        ∙ lookup-insert_self row.id row r.jobs.by_id) in
      (
        carry_on_id d i price row out s (ap (λ t. t.0) (sym same) ∙ went),
        ap (λ t. row_id (lookup row.id t.1.jobs.by_id)) same
            ∙ (carry_on-Preserves row.id d i price row).kept s stored,
      )

-- The job that a look-up finds, where it is stored.
pub stored-id :
    (id : Uuid) (r : Repositories) → IsStored id r → (lookup_or zero_job id r.jobs.by_id).id ≡ id
stored-id id r h = elim (Option-cases (lookup id r.jobs.by_id)) [
  | inl missing ↦ absurd (ground (arith, missing, h))
  | inr (row, found) ↦ ground (arith, found, h)
]
