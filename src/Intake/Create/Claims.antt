-- ===== src/Intake/Create/Claims.antt =====
-- How `CreateJob` claims its key (service/joborchestrator), step by step.
use vk_agregator.Base.{
  String, false, ◌≡◌, refl, sym, ap, ◌∙◌, inl, inr, some, Uuid, if◌then◌else◌, arith, Bool-cases,
}
use vk_agregator.Base.Int.{ℤ, pos, int_beq}
use vk_agregator.Base.Dict.{Dict, lookup, contains}
use vk_agregator.Base.Eq.{text_key, uuid_key}
use vk_agregator.Base.Action.{
  Action, Result, ok, err, try, chain_ok, ok_injective, pure, ◌>>=◌, ◌>>◌, Keeps, chain-Keeps,
  is_insufficient_credits,
}
use vk_agregator.Domain.JobStatus.{JobStatus}
use vk_agregator.Domain.Job.{Job}
use vk_agregator.Domain.Billing.{CreditReservation}
use vk_agregator.Jobs.Repo.{create, new_row, store_new, update, update_status}
use vk_agregator.Jobs.Repo.Keys.{
  create_state, create_conflict, update_status-by_key, update-by_key, new_row_known,
}
use vk_agregator.Jobs.Outbox.{add, OutboxEvent}
use vk_agregator.Intake.{Repositories, CreateJobInput, Orchestrator, Outcome, on_jobs, on_outbox}
use vk_agregator.Intake.Create.{
  Draws, job_event, persist, queue_free, queue_paid, park, pay, after_reservation, announce, move,
  hold_credits, at_status,
}

-- The keys that the job repository holds.
abbrev keys : Repositories → Dict String Uuid
keys r = r.jobs.by_key

moves-Keeps :
    (d : Draws) (id : Uuid) (from to : JobStatus) (code message : String)
    → Keeps keys (on_jobs (update_status d.now id from to code message))
moves-Keeps d id from to code message r = update_status-by_key d.now id from to code message r.jobs

announce-Keeps : (d : Draws) (e : OutboxEvent) (id : Uuid) → Keeps keys (on_outbox (add id d.now e))
unfolding add
announce-Keeps d e id r = refl

abbrev finish : Draws → Job → Action Repositories Outcome
finish d j = do
  announce d (at_status JobStatus.queued j)
  pure (Outcome.queued (at_status JobStatus.queued j))

finish-Keeps : (d : Draws) (j : Job) → Keeps keys (finish d j)
unfolding add
finish-Keeps d j r = refl

queue_free-Keeps : (d : Draws) (j : Job) → Keeps keys (queue_free d j)
unfolding queue_free
queue_free-Keeps d j =
    chain-Keeps keys (move d j JobStatus.validated JobStatus.queued) (λ _. finish d j)
      (moves-Keeps d j.id JobStatus.validated JobStatus.queued "" "") (λ _. finish-Keeps d j)

park-Keeps : (d : Draws) (j : Job) → Keeps keys (park d j)
unfolding park
park-Keeps d j r = ground (
  arith,
  update_status-by_key d.now j.id JobStatus.validated JobStatus.awaiting_payment
      "insufficient_credits" "not enough credits to reserve" r.jobs,
)

abbrev requeue : Draws → Job → Action Repositories Outcome
requeue d j = do move d j JobStatus.credits_reserved JobStatus.queued; finish d j

requeue-Keeps : (d : Draws) (j : Job) → Keeps keys (requeue d j)
requeue-Keeps d j =
    chain-Keeps keys (move d j JobStatus.credits_reserved JobStatus.queued) (λ _. finish d j)
      (moves-Keeps d j.id JobStatus.credits_reserved JobStatus.queued "" "") (λ _. finish-Keeps d j)

abbrev record_hold : Draws → Job → ℤ → Action Repositories Job
record_hold d j price = on_jobs (update d.now (record j { cost_reserved = price }))

queue_paid-Keeps : (d : Draws) (j : Job) (price : ℤ) → Keeps keys (queue_paid d j price)
unfolding queue_paid
queue_paid-Keeps d j price =
    chain-Keeps keys (move d j JobStatus.validated JobStatus.credits_reserved)
      (λ _. record_hold d j price >>= requeue d)
      (moves-Keeps d j.id JobStatus.validated JobStatus.credits_reserved "" "")
      (λ _.
        chain-Keeps keys (record_hold d j price) (requeue d)
          (λ r. update-by_key d.now (record j { cost_reserved = price }) r.jobs) (requeue-Keeps d))

module _ (uuid_string : Uuid → String) (o : Orchestrator) where
  after_reservation-Keeps :
      (d : Draws) (j : Job) (price : ℤ) (held : Result CreditReservation)
      → Keeps keys (after_reservation d j price held)
  after_reservation-Keeps d j price (ok hold) r = queue_paid-Keeps d j price r
  after_reservation-Keeps d j price (err e) r = elim (Bool-cases (is_insufficient_credits e)) [
    | inl poor ↦ rw poor (park-Keeps d j r)
    | inr not_poor ↦ rw not_poor refl
  ]

  pay-Keeps :
      (d : Draws) (i : CreateJobInput) (j : Job) (price : ℤ)
      → Keeps keys (pay uuid_string o d i j price)
  unfolding pay
  pay-Keeps d i j price =
      chain-Keeps keys (try (hold_credits uuid_string o d i j price)) (after_reservation d j price)
        (λ r. refl) (after_reservation-Keeps d j price)

  settle-Keeps :
      (d : Draws) (i : CreateJobInput) (j : Job) (price : ℤ)
      → Keeps keys (if int_beq price (pos 0) then queue_free d j else pay uuid_string o d i j price)
  settle-Keeps d i j price r = elim (Bool-cases (int_beq price (pos 0))) [
    | inl free ↦ rw free (queue_free-Keeps d j r)
    | inr priced ↦ rw priced (pay-Keeps d i j price r)
  ]

  -- What the body does with a job that it has created.
  abbrev pub carry_on : Draws → CreateJobInput → ℤ → Job → Action Repositories Outcome
  carry_on d i price j = do
    on_outbox (add d.created_event_id d.now (job_event d.traceparent "event.job.created" j))
    if int_beq price (pos 0) then queue_free d j else pay uuid_string o d i j price

  carry_on-Keeps :
      (d : Draws) (i : CreateJobInput) (price : ℤ) (j : Job) → Keeps keys (carry_on d i price j)
  carry_on-Keeps d i price j =
      chain-Keeps keys
        (on_outbox (add d.created_event_id d.now (job_event d.traceparent "event.job.created" j)))
        (λ _. if int_beq price (pos 0) then queue_free d j else pay uuid_string o d i j price)
        (announce-Keeps d (job_event d.traceparent "event.job.created" j) d.created_event_id)
        (λ _. settle-Keeps d i j price)

  -- A transaction body that answers `ok` found the key free.
  pub persist_fresh :
      (d : Draws) (i : CreateJobInput) (wanted : Job) (price : ℤ) (r : Repositories) (out : Outcome)
      → (persist uuid_string o d i wanted price r).0 ≡ ok out
      → (contains wanted.idempotency_key r.jobs.by_key ≡ false)
        × (persist uuid_string o d i wanted price r
            ≡ carry_on d i price
                (new_row d.job_id d.now wanted)
                (record r { jobs = store_new (new_row d.job_id d.now wanted) r.jobs }))
  unfolding persist
  persist_fresh d i wanted price r out went =
      let (j, made, same) =
        chain_ok (on_jobs (create d.job_id d.now wanted)) (carry_on d i price) r out went in
      elim (Bool-cases (contains wanted.idempotency_key r.jobs.by_key)) [
        | inl used ↦
            let lost = ap (λ t. t.0) (create_conflict d.job_id d.now wanted r.jobs used) in
            absurd (cc)
        | inr fresh ↦
            let state = create_state d.job_id d.now wanted r.jobs fresh in
            let row : j ≡ new_row d.job_id d.now wanted =
              ok_injective (sym made ∙ ap (λ t. t.0) state) in
            (
              fresh,
              same
                  ∙ ap
                      (λ x.
                        carry_on d i price x
                          (record r { jobs = (create d.job_id d.now wanted r.jobs).1 }))
                      row
                  ∙ ap
                      (λ t.
                        carry_on d i price (new_row d.job_id d.now wanted)
                          (record r { jobs = t.1 }))
                      state,
            )
      ]

  -- A transaction body that answers `ok` has claimed the job's key.
  pub persist-claims :
      (d : Draws) (i : CreateJobInput) (wanted : Job) (price : ℤ) (r : Repositories) (out : Outcome)
      → (persist uuid_string o d i wanted price r).0 ≡ ok out
      → lookup wanted.idempotency_key (persist uuid_string o d i wanted price r).1.jobs.by_key
        ≡ some (new_row d.job_id d.now wanted).id
  persist-claims d i wanted price r out went =
      let (fresh, same) = persist_fresh d i wanted price r out went in
      ap (λ t. lookup wanted.idempotency_key t.1.jobs.by_key) same
      ∙ ap (λ m. lookup wanted.idempotency_key m)
          (carry_on-Keeps d i price (new_row d.job_id d.now wanted) _)
      ∙ new_row_known d.job_id d.now wanted r.jobs
