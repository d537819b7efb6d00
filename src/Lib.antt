-- ===== src/Lib.antt =====
-- The core of the VK AI aggregator, a service that sells AI generations for credits, as a library.
--
-- A user's command becomes a job: the orchestrator looks its idempotency key up, checks the inputs,
-- fixes a price, and in one transaction stores the job, holds its credits and records the events
-- that announce it. A relay publishes the events to the worker queue. When the work is done the hold
-- is captured, and otherwise it is released. Credits are bought: a payment provider takes the money,
-- and its webhooks, which are kept in an inbox, or a sync that asks it, turn a payment into credits
-- once the provider itself has confirmed it; a refund takes the credits first, and gives them back
-- where the provider refuses. What this library models of it:
--
--   Base      what the other modules share: Go's integers, texts, maps, slices and errors.
--   Domain    internal/domain: the statuses of a job and their transitions (Domain.JobStatus, from
--             job.go), jobs and operations (Domain.Job), accounts, holds and ledger entries
--             (Domain.Billing, from billing.go), payments, their events and refunds (Domain.Payment,
--             from payment.go).
--   Billing   the credit ledger. Billing.Repo is internal/adapter/storage/memory/billing.go, one
--             function for each method of BillingRepo; Billing.Service is
--             internal/service/billingservice/service.go over it (Estimate, ReserveWithOwner,
--             CaptureForJob, ReleaseForJob, RefundForOwner, GrantWithOwner and their kin).
--   Pricing   internal/service/pricingcatalog: what a price is made of and what it comes to
--             (Pricing.Parts and Pricing.Entry, from catalog.go), the catalog of entries (Pricing.Catalog), and the
--             tariffs of static_catalog.go (Pricing.Tariff).
--   Jobs      Jobs.Repo is JobRepo and Jobs.Outbox is OutboxRepo of
--             internal/adapter/storage/memory/memory.go; Jobs.Outbox.Relay is
--             internal/service/outboxrelay/relay.go, whose unit of work spans the outbox and not
--             the queue.
--   Tx        the managers of transactions: UnitOfWork of
--             internal/adapter/storage/memory/memory.go and RunInTx of
--             internal/adapter/storage/postgres/postgres.go.
--   Intake    internal/service/joborchestrator/orchestrator.go: its requests and guards
--             (Intake.Request), what it checks and prices (Intake.Checks), and CreateJob
--             (Intake.Create), over the repositories of one transaction (Intake.Store).
--   Payments  money that turns into credits, and back. Payments.Repo is
--             internal/adapter/storage/memory/payment.go, one function for each method of
--             PaymentRepo (intents in Repo itself, then Products, Events, Refunds and Listings). The
--             rest is internal/service/paymentservice/webhook_processor.go over the payments and the
--             ledger together (Payments.Books): what is believed of a provider's answer (Provider),
--             applyProviderPayment (Settlement), ProcessEvent, SyncIntent and CancelIntent
--             (Webhooks), IngestWebhook, ProcessBatch and ReconcilePending (Inbox),
--             ensureTopupCreditsRefundable (Scan), RefundIntent (Refunds), and the receipt texts of
--             internal/service/paymentservice/service.go (Receipt). Payments.History has every order
--             in which these calls may come.
--   Referrals invitations. Referrals.Repo is internal/adapter/storage/memory/referral.go, one function
--             for each method of ReferralRepo (the counters in Repo.Funnel), over the data model of
--             internal/domain/referral.go (Domain.Referral); Referrals.Code has the texts of codes and
--             Referrals.Service the calls of internal/service/referralservice/service.go (EnsureCode,
--             Apply, Activate, Stats), which pay rewards through the billing service.
--             Referrals.History has every order in which these calls may come.
--
-- How the code is written here. A method is an action on its receiver's state (Base.Action): it
-- answers `ok` or an error, and the state that it reached, since an error return of Go undoes
-- nothing. A method that holds its mutex from start to end is one step. An error is the sentinel
-- that `errors.Is` finds; the texts wrapped around it are left out. A map is an association list with
-- one entry for each key, and a walk over it takes one of the orders that Go may take: it matters in
-- GetReservationByJob alone, where holds of a job that were made at one instant tie. An int64 is an
-- integer, and arithmetic on it wraps round (Base.Int64); big.Int is exact. Times are numbers of
-- nanoseconds. Identifiers are numbers, with 0 for uuid.Nil: google/uuid is not part of the
-- repository, so the identifiers that uuid.New draws, the times of time.Now and the text of an
-- identifier are arguments. The same holds for the guards and look-ups that the orchestrator is
-- given as interfaces, for what the queue and a payment provider answer, and for the errors of a
-- database's Begin and Commit. JSON is kept as the value that it encodes. The loop over the pages of
-- a ledger before a refund runs on fuel, 5,001 passes: each pass that goes on has scanned a page, and
-- the loop stops at 5,000 entries. EnsureCode counts its eight attempts down. Every other loop of the
-- code that is modelled walks a list.
--
-- Not modelled: the HTTP, VK and mini-app handlers, the clients of AI, payment and delivery providers,
-- SQL, Redis and S3, configuration, metrics, tracing and logging, which are input and output; and,
-- so far, the creation of payments and the upkeep of products, the worker engine, rate limits, runtime
-- pricing and dialogs.
pub mod Base
pub mod Domain
pub mod Billing
pub mod Intake
pub mod Jobs
pub mod Payments
pub mod Referrals
pub mod Pricing
pub mod Tx
