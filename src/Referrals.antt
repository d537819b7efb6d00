-- ===== src/Referrals.antt =====
-- Invitations (adapter/storage/memory/referral.go, and service/referralservice over it).
pub mod Repo
pub mod Code
pub mod Service
pub mod History
mod Tests
