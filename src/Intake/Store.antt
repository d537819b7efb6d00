-- ===== src/Intake/Store.antt =====
-- platform/uow: the repositories of one transaction of job intake.
use vk_agregator.Base.Action.{Action}
use vk_agregator.Billing.Repo.{BillingRepo}
use vk_agregator.Jobs.Repo.{JobRepo}
use vk_agregator.Jobs.Outbox.{OutboxRepo}

pub record Repositories : Type 0 where
  pub jobs : JobRepo
  pub outbox : OutboxRepo
  pub billing : BillingRepo

-- A method of one repository, on the three.
module _ {A : Type 0} where
  abbrev pub on_jobs : Action JobRepo A → Action Repositories A
  on_jobs m r = let (a, jobs) = m r.jobs in (a, record r { jobs = jobs })

  abbrev pub on_outbox : Action OutboxRepo A → Action Repositories A
  on_outbox m r = let (a, outbox) = m r.outbox in (a, record r { outbox = outbox })

  abbrev pub on_billing : Action BillingRepo A → Action Repositories A
  on_billing m r = let (a, billing) = m r.billing in (a, record r { billing = billing })
