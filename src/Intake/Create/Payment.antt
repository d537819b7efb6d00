-- ===== src/Intake/Create/Payment.antt =====
-- What a queued job is paid with (service/joborchestrator).
use vk_agregator.Base.{
  String, false, ◌≡◌, ◌≢◌, refl, sym, ap, ◌∙◌, ◌⊎◌, inl, inr, Option, none, some, List, [], ◌∷◌,
  ◌++◌, Uuid, if◌then◌else◌, arith, Bool-cases, Option-cases,
}
use vk_agregator.Base.Int.{ℤ, pos, int_beq}
use vk_agregator.Base.Dict.{lookup}
use vk_agregator.Base.Eq.{uuid_key, text_key}
use vk_agregator.Base.Action.{
  Result, ok, err, Error, chain_ok, ok_injective, raise, is_insufficient_credits,
}
use vk_agregator.Domain.JobStatus.{JobStatus}
use vk_agregator.Domain.Job.{Job, charge_amount_credits, pricing_snapshot_credits}
use vk_agregator.Domain.Billing.{CreditReservation}
use vk_agregator.Jobs.Repo.{new_row, store_new, or_unknown}
use vk_agregator.Jobs.Outbox.{add, as_added, OutboxEvent}
use vk_agregator.Billing.Service.Reserved.{Holding, reserve_with_owner-Holding}
use vk_agregator.Intake.{Repositories, Outcome, job_of, CreateJobInput, Orchestrator}
use vk_agregator.Intake.Checks.{owner_account_id, with_route, Price, price_job}
use vk_agregator.Tx.{run_in_tx, run_in_tx_ok}
use vk_agregator.Intake.Create.Claims.{carry_on, persist_fresh}
use vk_agregator.Intake.Create.Rollback.{create_new_cases, create_job_known, create_job_unknown}
use vk_agregator.Intake.Create.{
  Draws, job_event, queue_free, park, move, at_status, after_reservation, pay, hold_credits,
  persist, create_job, new_job,
}
use vk_agregator.Intake.Create.Queued.{QueuedPaid, queue_paid_ok, queued_event, finish}

park_queues_nothing :
    (d : Draws) (j job : Job) (s : Repositories) → (park d j s).0 ≢ ok (Outcome.queued job)
unfolding park
park_queues_nothing d j job s e = ground arith

after_reservation_queued :
    (d : Draws) (j job : Job) (price : ℤ) (held : Result CreditReservation) (s : Repositories)
    → (after_reservation d j price held s).0 ≡ ok (Outcome.queued job)
    → (hold : CreditReservation) × (held ≡ ok hold)
      × QueuedPaid d j price s (after_reservation d j price held s).1 (Outcome.queued job)
after_reservation_queued d j job price (ok hold) s went =
    (hold, refl, queue_paid_ok d j price s _ went)
after_reservation_queued d j job price (err e) s went =
    elim (Bool-cases (is_insufficient_credits e)) [
      | inl poor ↦ absurd (
          park_queues_nothing d j job s
            (ap (λ b. ((if b then park d j else raise e) s).0) (sym poor) ∙ went))
      | inr not_poor ↦
          absurd (
            let lost = ap (λ b. ((if b then park d j else raise e) s).0) (sym not_poor) ∙ went in
            cc)
    ]

queue_free_job :
    (d : Draws) (j job : Job) (s : Repositories)
    → (queue_free d j s).0 ≡ ok (Outcome.queued job)
    → job ≡ at_status JobStatus.queued j
unfolding queue_free add
queue_free_job d j job s e =
    let (u, won, same) =
      chain_ok (move d j JobStatus.validated JobStatus.queued) (λ _. finish d j) s _ e in
    ap job_of (ok_injective (sym e ∙ ap (λ t. t.0) same))

module _ (uuid_string : Uuid → String) (o : Orchestrator) where
  pay_queued :
      (d : Draws) (i : CreateJobInput) (j job : Job) (price : ℤ) (s : Repositories)
      → (pay uuid_string o d i j price s).0 ≡ ok (Outcome.queued job)
      → (hold : CreditReservation) × (mid : Repositories) × Holding j.id price hold mid.billing
        × QueuedPaid d j price mid (pay uuid_string o d i j price s).1 (Outcome.queued job)
  unfolding pay
  pay_queued d i j job price s went =
      let h = hold_credits uuid_string o d i j price s in
      let (hold, held, paid) = after_reservation_queued d j job price h.0 h.1 went in
      (
        hold,
        h.1,
        reserve_with_owner-Holding uuid_string o.billing d.account d.hold i.user_id
            (owner_account_id i.user_id i.account_id) j.id price s.billing hold held,
        paid,
      )

  carry_on_queued :
      (d : Draws) (i : CreateJobInput) (j job : Job) (price : ℤ) (s : Repositories)
      → (carry_on uuid_string o d i price j s).0 ≡ ok (Outcome.queued job)
      → j.cost_estimate ≡ price
      → int_beq job.cost_estimate (pos 0) ≡ false
      → (hold : CreditReservation) × (mid : Repositories) × Holding j.id price hold mid.billing
        × QueuedPaid d j price mid (carry_on uuid_string o d i price j s).1 (Outcome.queued job)
  unfolding add
  carry_on_queued d i j job price s went at_price costs =
      let event =
        as_added d.created_event_id d.now (job_event d.traceparent "event.job.created" j) in
      let s' = record s { outbox = s.outbox ++ event ∷ [] } in
      elim (Bool-cases (int_beq price (pos 0))) [
        | inl free ↦
            let same = queue_free_job d j job s' (
              ap (λ b. ((if b then queue_free d j else pay uuid_string o d i j price) s').0)
                (sym free)
              ∙ went) in
            let nothing = ap (λ x. int_beq x (pos 0)) (ap (λ x. x.cost_estimate) same ∙ at_price) in
            absurd (let clash = sym costs ∙ nothing ∙ free in cc)
        | inr priced ↦ rw priced (
            pay_queued d i j job price s' (
              ap (λ b. ((if b then queue_free d j else pay uuid_string o d i j price) s').0)
                (sym priced)
              ∙ went))
      ]

-- The credits that a stored snapshot names are the price, or nothing that is charged.
price_job-snapshot :
    (o : Orchestrator) (i : CreateJobInput) (price : Price)
    → price_job o i ≡ ok price
    → (price.1 ≡ none) ⊎ ((price.1 ≡ some price.0) ⊎ (price.1 ≡ some (pos 0)))
unfolding price_job
price_job-snapshot o i price e = ground arith

charge_of :
    (j : Job) (price : Price)
    → (price.1 ≡ none) ⊎ ((price.1 ≡ some price.0) ⊎ (price.1 ≡ some (pos 0)))
    → j.pricing_snapshot ≡ price.1
    → j.cost_reserved ≡ price.0
    → charge_amount_credits j ≡ price.0
unfolding charge_amount_credits pricing_snapshot_credits
charge_of j price kind snapshot reserved = ground arith

new_row_fields :
    (d : Draws) (i : CreateJobInput) (source : String) (price : Price)
    → let j = new_row d.job_id d.now (new_job d i source price) in
      (j.cost_estimate ≡ price.0) × (j.pricing_snapshot ≡ price.1)
unfolding new_row new_job
new_row_fields d i source price = (refl, refl)

-- What a queued job leaves behind: an active hold of its price, a queued row that records it, and,
-- last in the outbox, the event that tells the relay.
pub record PaidAndAnnounced (d : Draws) (job : Job) (t : Repositories) : Type 0 where
  pub hold : CreditReservation
  pub row : Job
  pub before : List OutboxEvent
  pub held : Holding job.id job.cost_estimate hold t.billing
  pub stored : lookup job.id t.jobs.by_id ≡ some row
  pub stored_status : (row.status ≡ JobStatus.queued) × (row.cost_reserved ≡ job.cost_estimate)
  pub announced : t.outbox ≡ before ++ queued_event d job ∷ []
  pub charge : charge_amount_credits job ≡ job.cost_estimate

module _ (uuid_string : Uuid → String) (o : Orchestrator) where
  persist_queued :
      (d : Draws) (i : CreateJobInput) (source : String) (price : Price) (job : Job)
      (r : Repositories)
      → price_job o i ≡ ok price
      → (persist uuid_string o d i (new_job d i source price) price.0 r).0 ≡ ok (Outcome.queued job)
      → int_beq job.cost_estimate (pos 0) ≡ false
      → PaidAndAnnounced d job (persist uuid_string o d i (new_job d i source price) price.0 r).1
  persist_queued d i source price job r priced went costs =
      let wanted = new_job d i source price in
      let j = new_row d.job_id d.now wanted in
      let s = record r { jobs = store_new j r.jobs } in
      let (fresh, same) =
        persist_fresh uuid_string o d i wanted price.0 r (Outcome.queued job) went in
      let (at_price, snapshot) = new_row_fields d i source price in
      let (hold, mid, (there, for_job, amount, active), q) =
        carry_on_queued uuid_string o d i j job price.0 s (ap (λ t. t.0) (sym same) ∙ went) at_price
          costs in
      let shown : job ≡ q.job = ap job_of q.queued in
      let id : job.id ≡ j.id = ap (λ x. x.id) shown ∙ q.same_id in
      let cost : job.cost_estimate ≡ price.0 =
        ap (λ x. x.cost_estimate) shown ∙ q.reserved.1 ∙ at_price in
      let ledger = ap (λ t. t.1.billing) same ∙ q.ledger in
      record {
        hold = hold;
        row = q.row;
        before = mid.outbox;
        held = (
          ap (λ b. lookup hold.id b.reservations) ledger ∙ there,
          for_job ∙ sym id,
          amount ∙ sym cost,
          active,
        );
        stored =
            ap (λ t. lookup job.id t.1.jobs.by_id) same
            ∙ ap (λ k. lookup k (carry_on uuid_string o d i price.0 j s).1.jobs.by_id) id
            ∙ q.stored;
        stored_status = (q.stored_status.0, q.stored_status.1 ∙ sym cost);
        announced =
            ap (λ t. t.1.outbox) same
            ∙ q.announced
            ∙ ap (λ x. mid.outbox ++ queued_event d x ∷ []) (sym shown);
        charge =
            charge_of job price (price_job-snapshot o i price priced)
              (ap (λ x. x.pricing_snapshot) shown ∙ q.snapshot ∙ snapshot)
              (ap (λ x. x.cost_reserved) shown ∙ q.reserved.0)
            ∙ sym cost;
      }

  -- A priced job that `CreateJob` queues is paid for and announced: in the state that the transaction
  -- commits, the ledger has an active hold for the job of exactly its price; the job's row is queued
  -- and records that price as reserved; the last event of the outbox is the one that the relay turns
  -- into the job's task; and the amount that a later capture charges is that same price.
  pub create_job-PaidAndAnnounced :
      (begin commit : Option Error) (d : Draws) (i : CreateJobInput) (r : Repositories) (job : Job)
      → let t = create_job uuid_string o (run_in_tx begin commit) d i r in
        t.0 ≡ ok (Outcome.queued job)
        → int_beq job.cost_estimate (pos 0) ≡ false
        → PaidAndAnnounced d job t.1
  create_job-PaidAndAnnounced begin commit d i r job went costs =
      elim (Option-cases (lookup i.idempotency_key r.jobs.by_key)) [
        | inr (id, known) ↦ absurd (
            let clash =
              ap (λ t. t.0)
                (sym (create_job_known uuid_string o (run_in_tx begin commit) d i r id known))
              ∙ went in
            cc)
        | inl unknown ↦
            let same = create_job_unknown uuid_string o (run_in_tx begin commit) d i r unknown in
            elim (create_new_cases uuid_string o (run_in_tx begin commit) d i r) [
              | inl (x, refused) ↦
                  absurd (let lost = ap (λ t. t.0) (sym (same ∙ refused)) ∙ went in cc)
              | inr a ↦
                  let i' = with_route a.route i in
                  let source = or_unknown i.source in
                  let body = persist uuid_string o d i' (new_job d i' source a.price) a.price.0 in
                  let done = ap (λ t. t.0) (sym (same ∙ a.runs)) ∙ went in
                  let ran = run_in_tx_ok begin commit body r (Outcome.queued job) done in
                  rw (same ∙ a.runs ∙ ran) (
                    persist_queued d i' source a.price job r a.priced
                      (ap (λ t. t.0) (sym ran) ∙ done) costs)
            ]
      ]
