-- ===== src/Jobs.antt =====
-- Jobs and the events that announce them: the repositories (adapter/storage/memory), and what passes
-- between them.
pub mod Repo
pub mod Outbox
mod Tests
