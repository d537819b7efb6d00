-- ===== src/Intake.antt =====
-- service/joborchestrator: from a command to a job that is paid for and queued.
mod Request
mod Store
pub mod Checks
pub mod Create
mod Tests
unfoldable pub use Request.*
unfoldable pub use Store.*
