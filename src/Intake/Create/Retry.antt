-- ===== src/Intake/Create/Retry.antt =====
-- Retrying `CreateJob` (service/joborchestrator): one key, one job.
use mathlib.Core.Path.{subst}
use vk_agregator.Base.{
  String, ◌≡◌, refl, sym, ap, ◌∙◌, inl, inr, Option, some, Uuid, Option-cases, Bool-cases, arith,
}
use vk_agregator.Base.Dict.{lookup, lookup_or}
use vk_agregator.Base.Eq.{text_key, uuid_key}
use vk_agregator.Base.Action.{Action, ok, Error, ok_injective}
use vk_agregator.Domain.Job.{Job}
use vk_agregator.Jobs.Repo.{JobRepo, zero_job, new_row, or_unknown, get_by_idempotency_key}
use vk_agregator.Intake.{
  Repositories, CreateJobInput, Orchestrator, Outcome, job_of, VideoRouteResolution,
}
use vk_agregator.Intake.Checks.{Price, with_route}
use vk_agregator.Intake.Create.{Draws, new_job, persist, create_job}
use vk_agregator.Intake.Create.Rollback.{
  Admitted, create_new_cases, create_job_known, create_job_unknown,
}
use vk_agregator.Intake.Create.Identity.{persist-IsStored, stored-id}
use vk_agregator.Tx.{run_in_tx, run_in_tx_ok}
use vk_agregator.Intake.Create.Claims.{persist-claims}

-- The transaction's body for a request that passes the checks.
abbrev admitted_body :
    (Uuid → String)
    → Orchestrator
    → Draws
    → CreateJobInput
    → VideoRouteResolution
    → Price
    → Action Repositories Outcome
admitted_body u o d i route price =
    persist u o d (with_route route i) (new_job d (with_route route i) (or_unknown i.source) price)
      price.0

new_job-key :
    (d : Draws) (i : CreateJobInput) (route : VideoRouteResolution) (source : String)
    (price : Price)
    → (new_job d (with_route route i) source price).idempotency_key ≡ i.idempotency_key
unfolding new_job
new_job-key d i route source price = elim (Bool-cases route.resolved) [
  | inl resolved ↦ rw resolved refl
  | inr kept ↦ rw kept refl
]

-- What the key of a stored job finds.
key_finds :
    (key : String) (id : Uuid) (r : JobRepo)
    → lookup key r.by_key ≡ some id
    → get_by_idempotency_key key r ≡ (ok (lookup_or zero_job id r.by_id), r)
unfolding get_by_idempotency_key
key_finds key id r known = ground (arith, known)

-- The key leads to the job that the call has returned.
abbrev Claimed : String → Outcome → Repositories → Type 0
Claimed key out r =
    (id : Uuid) × (lookup key r.jobs.by_key ≡ some id)
    × ((lookup_or zero_job id r.jobs.by_id).id ≡ (job_of out).id)

module _ (u : Uuid → String) (o : Orchestrator) (begin commit : Option Error) (d : Draws)
    (i : CreateJobInput) (r : Repositories) (out : Outcome) where
  -- Where the key is known, the call has returned what it finds.
  known-claims :
      (id : Uuid)
      → lookup i.idempotency_key r.jobs.by_key ≡ some id
      → let t = create_job u o (run_in_tx begin commit) d i r in
        t.0 ≡ ok out → Claimed i.idempotency_key out t.1
  known-claims id known went =
      let same = create_job_known u o (run_in_tx begin commit) d i r id known in
      (
        id,
        ap (λ t. lookup i.idempotency_key t.1.jobs.by_key) same ∙ known,
        ap (λ t. (lookup_or zero_job id t.1.jobs.by_id).id) same
            ∙ ap (λ x. (job_of x).id) (ok_injective (ap (λ t. t.0) (sym same) ∙ went)),
      )

  -- Where it is not, the call has stored what it returns.
  new-claims :
      (a : Admitted u o (run_in_tx begin commit) d i r)
      → (run_in_tx begin commit (admitted_body u o d i a.route a.price) r).0 ≡ ok out
      → Claimed i.idempotency_key out
          (run_in_tx begin commit (admitted_body u o d i a.route a.price) r).1
  new-claims a done =
      let wanted = new_job d (with_route a.route i) (or_unknown i.source) a.price in
      let body = admitted_body u o d i a.route a.price in
      let ran = run_in_tx_ok begin commit body r out done in
      let went = ap (λ t. t.0) (sym ran) ∙ done in
      let claimed = persist-claims u o d (with_route a.route i) wanted a.price.0 r out went in
      let (answered, stored) =
        persist-IsStored u o d (with_route a.route i) wanted a.price.0 r out went in
      let id = (new_row d.job_id d.now wanted).id in
      (
        id,
        ap (λ t. lookup i.idempotency_key t.1.jobs.by_key) ran
            ∙ ap (λ k. lookup k (body r).1.jobs.by_key)
                (sym (new_job-key d i a.route (or_unknown i.source) a.price))
            ∙ claimed,
        ap (λ t. (lookup_or zero_job id t.1.jobs.by_id).id) ran
            ∙ stored-id id (body r).1 stored
            ∙ sym answered,
      )

  -- A call that returns a job leaves the key claimed for it.
  create_job-claims :
      let t = create_job u o (run_in_tx begin commit) d i r in
      t.0 ≡ ok out → Claimed i.idempotency_key out t.1
  create_job-claims went = elim (Option-cases (lookup i.idempotency_key r.jobs.by_key)) [
    | inr (id, known) ↦ known-claims id known went
    | inl unknown ↦
        let same = create_job_unknown u o (run_in_tx begin commit) d i r unknown in
        elim (create_new_cases u o (run_in_tx begin commit) d i r) [
          | inl (x, refused) ↦ absurd (let lost = ap (λ t. t.0) (same ∙ refused) in cc)
          | inr a ↦
              subst (λ t. Claimed i.idempotency_key out t.1) (sym (same ∙ a.runs))
                (new-claims a (ap (λ t. t.0) (sym (same ∙ a.runs)) ∙ went))
        ]
  ]

-- `CreateJob` is safe to retry. Once it has returned a job, new or not, queued or waiting for
-- payment, a second call under that idempotency key, whatever else it asks for and whatever is drawn
-- for it, returns the same job: the one that the key finds, which has the identifier of the job that
-- the first call returned. And it changes nothing: no second job, hold or event.
pub create_job-once :
    (uuid_string : Uuid → String) (o o' : Orchestrator) (begin commit begin' commit' : Option Error)
    (d d' : Draws) (i i' : CreateJobInput) (r : Repositories) (out : Outcome)
    → i'.idempotency_key ≡ i.idempotency_key
    → let t = create_job uuid_string o (run_in_tx begin commit) d i r in
      t.0 ≡ ok out
      → (j : Job) × (j.id ≡ (job_of out).id)
        × (get_by_idempotency_key i.idempotency_key t.1.jobs ≡ (ok j, t.1.jobs))
        × (create_job uuid_string o' (run_in_tx begin' commit') d' i' t.1
            ≡ (ok (Outcome.existing j), t.1))
create_job-once u o o' begin commit begin' commit' d d' i i' r out same_key went =
    let t = create_job u o (run_in_tx begin commit) d i r in
    let (id, claimed, same) = create_job-claims u o begin commit d i r out went in
    (
      lookup_or zero_job id t.1.jobs.by_id,
      same,
      key_finds i.idempotency_key id t.1.jobs claimed,
      create_job_known u o' (run_in_tx begin' commit') d' i' t.1 id
          (ap (λ k. lookup k t.1.jobs.by_key) same_key ∙ claimed),
    )
