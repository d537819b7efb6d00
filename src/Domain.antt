-- ===== src/Domain.antt =====
-- internal/domain: the data model, the closed sets of statuses and their state machines.
pub mod Billing
pub mod JobStatus
pub mod Job
pub mod Payment
pub mod Referral
mod Tests
