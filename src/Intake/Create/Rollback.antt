-- ===== src/Intake/Create/Rollback.antt =====
-- All or nothing (service/joborchestrator over adapter/storage/postgres `RunInTx`), and the ways that
-- `CreateJob` goes.
use vk_agregator.Base.{
  String, ◌≡◌, refl, sym, ap, ◌∙◌, ◌⊎◌, inl, inr, Option, none, some, Uuid, if◌then◌else◌, arith,
  Option-cases,
}
use vk_agregator.Base.Dict.{lookup, lookup_or}
use vk_agregator.Base.Eq.{text_key, uuid_key}
use vk_agregator.Base.Action.{
  Action, Result, ok, err, Error, Result-cases, is_not_found, raise, pure,
}
use vk_agregator.Domain.Job.{Job}
use vk_agregator.Jobs.Repo.{JobRepo, get_by_idempotency_key, or_unknown, zero_job}
use vk_agregator.Jobs.Repo.Keys.{missing_key}
use vk_agregator.Tx.{run_in_tx, run_in_tx_failed}
use vk_agregator.Intake.{Repositories, CreateJobInput, Orchestrator, Outcome, VideoRouteResolution}
use vk_agregator.Intake.Checks.{
  Price, validate_input_artifacts, resolve_video_route, with_route, price_job, check_capacity,
}
use vk_agregator.Intake.Create.{Draws, new_job, persist, create_new, create_job}

module _ (uuid_string : Uuid → String) (o : Orchestrator)
    (within : Action Repositories Outcome → Action Repositories Outcome) where
  -- A call that gets as far as the transaction: what it has decided by then.
  pub record Admitted (d : Draws) (i : CreateJobInput) (r : Repositories) : Type 0 where
    pub route : VideoRouteResolution
    pub price : Price
    pub artifacts_fit : validate_input_artifacts o i ≡ ok tt
    pub priced : price_job o (with_route route i) ≡ ok price
    pub capacity :
        check_capacity o (with_route route i) (or_unknown i.source) price.0 r.jobs ≡ ok tt
    pub runs :
        create_new uuid_string o within d i r
        ≡ within
            (persist uuid_string o d
              (with_route route i)
              (new_job d (with_route route i) (or_unknown i.source) price)
              price.0)
            r

  refused_artifacts :
      (d : Draws) (i : CreateJobInput) (r : Repositories) (e : Error)
      → validate_input_artifacts o i ≡ err e
      → create_new uuid_string o within d i r ≡ (err e, r)
  unfolding create_new
  refused_artifacts d i r e h = ground arith

  refused_route :
      (d : Draws) (i : CreateJobInput) (r : Repositories) (e : Error)
      → validate_input_artifacts o i ≡ ok tt
      → resolve_video_route o i (or_unknown i.source) ≡ err e
      → create_new uuid_string o within d i r ≡ (err e, r)
  unfolding create_new
  refused_route d i r e h k = ground arith

  refused_price :
      (d : Draws) (i : CreateJobInput) (r : Repositories) (route : VideoRouteResolution) (e : Error)
      → validate_input_artifacts o i ≡ ok tt
      → resolve_video_route o i (or_unknown i.source) ≡ ok route
      → price_job o (with_route route i) ≡ err e
      → create_new uuid_string o within d i r ≡ (err e, r)
  unfolding create_new
  refused_price d i r route e h k p = ground arith

  refused_capacity :
      (d : Draws) (i : CreateJobInput) (r : Repositories) (route : VideoRouteResolution)
      (price : Price) (e : Error)
      → validate_input_artifacts o i ≡ ok tt
      → resolve_video_route o i (or_unknown i.source) ≡ ok route
      → price_job o (with_route route i) ≡ ok price
      → check_capacity o (with_route route i) (or_unknown i.source) price.0 r.jobs ≡ err e
      → create_new uuid_string o within d i r ≡ (err e, r)
  unfolding create_new
  refused_capacity d i r route price e h k p c = ground arith

  admitted_runs :
      (d : Draws) (i : CreateJobInput) (r : Repositories) (route : VideoRouteResolution)
      (price : Price)
      → validate_input_artifacts o i ≡ ok tt
      → resolve_video_route o i (or_unknown i.source) ≡ ok route
      → price_job o (with_route route i) ≡ ok price
      → check_capacity o (with_route route i) (or_unknown i.source) price.0 r.jobs ≡ ok tt
      → create_new uuid_string o within d i r
        ≡ within
            (persist uuid_string o d
              (with_route route i)
              (new_job d (with_route route i) (or_unknown i.source) price)
              price.0)
            r
  unfolding create_new
  admitted_runs d i r route price h k p c = ground arith

  pub create_new_cases :
      (d : Draws) (i : CreateJobInput) (r : Repositories)
      → ((e : Error) × (create_new uuid_string o within d i r ≡ (err e, r))) ⊎ Admitted d i r
  create_new_cases d i r = elim (Result-cases (validate_input_artifacts o i)) [
    | inr (e, h) ↦ inl (e, refused_artifacts d i r e h)
    | inl (u, h) ↦ elim (Result-cases (resolve_video_route o i (or_unknown i.source))) [
      | inr (e, k) ↦ inl (e, refused_route d i r e h k)
      | inl (route, k) ↦ elim (Result-cases (price_job o (with_route route i))) [
        | inr (e, p) ↦ inl (e, refused_price d i r route e h k p)
        | inl (price, p) ↦
            elim (Result-cases
              (check_capacity o (with_route route i) (or_unknown i.source) price.0 r.jobs)) [
                | inr (e, c) ↦ inl (e, refused_capacity d i r route price e h k p c)
                | inl (v, c) ↦ inr (record {
                  route = route;
                  price = price;
                  artifacts_fit = h;
                  priced = p;
                  capacity = c;
                  runs = admitted_runs d i r route price h k p c;
                })
              ]
      ]
    ]
  ]

  pub create_job_known :
      (d : Draws) (i : CreateJobInput) (r : Repositories) (id : Uuid)
      → lookup i.idempotency_key r.jobs.by_key ≡ some id
      → create_job uuid_string o within d i r
        ≡ (ok (Outcome.existing (lookup_or zero_job id r.jobs.by_id)), r)
  unfolding create_job get_by_idempotency_key
  create_job_known d i r id known = ground arith

  -- What follows the look-up of the key.
  abbrev after_look_up :
      Draws → CreateJobInput → Repositories → Result Job × JobRepo → Result Outcome × Repositories
  after_look_up d i r t =
      (elim t.0 as (λ _. Action Repositories Outcome) [
        | ok j ↦ pure (Outcome.existing j)
        | err e ↦ if is_not_found e then create_new uuid_string o within d i else raise e
      ])
        (record r { jobs = t.1 })

  create_job_looks_up :
      (d : Draws) (i : CreateJobInput) (r : Repositories)
      → create_job uuid_string o within d i r
        ≡ after_look_up d i r (get_by_idempotency_key i.idempotency_key r.jobs)
  unfolding create_job
  create_job_looks_up d i r = refl

  pub create_job_unknown :
      (d : Draws) (i : CreateJobInput) (r : Repositories)
      → lookup i.idempotency_key r.jobs.by_key ≡ none
      → create_job uuid_string o within d i r ≡ create_new uuid_string o within d i r
  create_job_unknown d i r unknown =
      create_job_looks_up d i r
      ∙ ap (after_look_up d i r) (missing_key i.idempotency_key r.jobs unknown)

-- Under the transaction of the database, `CreateJob` is all or nothing: whenever it answers an error
-- without a job, whichever step failed, the jobs, the outbox and the ledger are as they were before
-- the call.
pub create_job-rollback :
    (uuid_string : Uuid → String) (o : Orchestrator) (begin commit : Option Error) (d : Draws)
    (i : CreateJobInput) (r : Repositories) (e : Error)
    → let t = create_job uuid_string o (run_in_tx begin commit) d i r in t.0 ≡ err e → t.1 ≡ r
create_job-rollback u o begin commit d i r e failed =
    elim (Option-cases (lookup i.idempotency_key r.jobs.by_key)) [
      | inr (id, known) ↦
          ap (λ t. t.1) (create_job_known u o (run_in_tx begin commit) d i r id known)
      | inl unknown ↦
          let same = create_job_unknown u o (run_in_tx begin commit) d i r unknown in
          elim (create_new_cases u o (run_in_tx begin commit) d i r) [
            | inl (x, refused) ↦ ap (λ t. t.1) (same ∙ refused)
            | inr a ↦
                ap (λ t. t.1) (same ∙ a.runs)
                ∙ run_in_tx_failed begin commit _ r e (ap (λ t. t.0) (sym (same ∙ a.runs)) ∙ failed)
          ]
    ]
