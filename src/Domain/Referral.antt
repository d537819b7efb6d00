-- ===== src/Domain/Referral.antt =====
-- domain/referral.go: invitation codes, and who has joined by whose.
use vk_agregator.Base.{String, Bool, true, false, Option, ℕ, ◌+◌, Uuid}
use vk_agregator.Base.Eq.{text_key}
use vk_agregator.Base.Int.{ℤ}
use vk_agregator.Domain.Billing.{Time}

abbrev pub ReferralSource : Type 0
ReferralSource = String

abbrev pub source_vk_bot : ReferralSource
source_vk_bot = "vk_bot"

-- `ReferralRewardStatus`: `unset` is the empty text, and `other` a text that is none of these.
pub data RewardStatus : Type 0 where
  unset pending applied : RewardStatus
  other : String → RewardStatus

-- `ReferralStatus`
pub data ReferralStatus : Type 0 where
  unset registered activated rewarded : ReferralStatus
  other : String → ReferralStatus

abbrev pub is_applied : RewardStatus → Bool
is_applied RewardStatus.applied = true
is_applied _ = false

abbrev pub is_rewarded : ReferralStatus → Bool
is_rewarded ReferralStatus.rewarded = true
is_rewarded _ = false

abbrev pub is_activated : ReferralStatus → Bool
is_activated ReferralStatus.activated = true
is_activated _ = false

pub record ReferralStats : Type 0 where
  pub registered_count : ℕ
  pub activated_count : ℕ
  pub rewarded_count : ℕ

-- `ReferralStats.Total`
unfoldable pub stats_total : ReferralStats → ℕ
stats_total s = s.registered_count + s.activated_count + s.rewarded_count

pub record ReferralCodeStats : Type 0 where
  pub code : String
  pub stats : ReferralStats

pub record ReferralSuspiciousFilter : Type 0 where
  pub min_registered : ℤ
  pub min_total : ℤ
  pub limit : ℤ

pub record ReferralCode : Type 0 where
  pub id : Uuid
  pub user_id : Uuid
  pub account_id : Uuid
  pub code : String
  pub created_at : Time
  pub updated_at : Time

-- A time of 0 is Go's zero time.
pub record Referral : Type 0 where
  pub id : Uuid
  pub referrer_user_id : Uuid
  pub referrer_account_id : Uuid
  pub referred_user_id : Uuid
  pub referred_account_id : Uuid
  pub referral_code : String
  pub source : ReferralSource
  pub status : ReferralStatus
  pub reward_status : RewardStatus
  pub first_seen_at : Time
  pub activated_at : Option Time
  pub rewarded_at : Option Time
  pub created_at : Time
  pub updated_at : Time
