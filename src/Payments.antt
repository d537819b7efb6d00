-- ===== src/Payments.antt =====
-- Payments: the repository, and the service and webhook processor over it and the ledger.
pub mod Repo
pub mod Books
pub mod Provider
pub mod Settlement
pub mod Webhooks
pub mod Inbox
pub mod Receipt
pub mod Scan
pub mod Refunds
pub mod Links
pub mod Stable
pub mod History
mod Tests
