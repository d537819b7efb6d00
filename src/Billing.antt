-- ===== src/Billing.antt =====
-- Credit accounting: the ledger repository (adapter/storage/memory/billing.go) and the service over
-- it (service/billingservice).
mod Keys
mod Draws
pub mod Repo
pub mod Service
mod Tests
unfoldable pub use Keys.*
unfoldable pub use Draws.*
