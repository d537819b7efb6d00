-- ===== src/Referrals/History.antt =====
-- Any history of calls of the referral service (service/referralservice/service.go), in any order,
-- failed ones too.
pub mod Keyed
pub mod Once
pub mod Rewarded
use vk_agregator.Base.{◌≡◌, String, Option, none, false, Uuid, nil_uuid}
use vk_agregator.Base.Eq.{◌==◌, uuid_key}
use vk_agregator.Base.Dict.{lookup}
use vk_agregator.Domain.Billing.{Time}
use vk_agregator.Billing.Service as Billing
use vk_agregator.Referrals.Repo.{ReferralRepo}
use vk_agregator.Referrals.Service.{
  Attempts, ensure_code, ApplyInput, apply_code, Ledgers, on_referrals, Visit, activate, Config,
}
use vk_agregator.Referrals.Service.Stable.{
  IsStable, ensure-Preserves, apply_code-kept, activate-Preserves,
}

module _ (uuid_string : Uuid → String) (config : Config) (billing : Option Billing.Service) where
  -- One call. An identifier that `uuid.New` draws for a referral is one that no referral
  -- has, and not `uuid.Nil`.
  pub data Step (b : Ledgers) : Ledgers → Type 0 where
    ensures : (a : Attempts) (user : Uuid) → Step b (on_referrals (ensure_code a user) b).1
    applies :
        (id : Uuid) (now : Time) (input : ApplyInput)
        → lookup id b.referrals.referrals_by_id ≡ none
        → id == nil_uuid ≡ false
        → Step b (on_referrals (apply_code id now input) b).1
    activates : (v : Visit) (user : Uuid) → Step b (activate uuid_string config billing v user b).1

  pub data Steps (b : Ledgers) : Ledgers → Type 0 where
    start : Steps b b
    next : {t u : Ledgers} → Steps b t → Step t u → Steps b u

  module _ {P : ReferralRepo → Type 0} (stable : IsStable P) where
    step-Preserves : {b t : Ledgers} → Step b t → P b.referrals → P t.referrals
    step-Preserves {b} (ensures a user) p = (ensure-Preserves stable a user).kept b.referrals p
    step-Preserves {b} (applies id now input fresh set) p =
        apply_code-kept stable id now input b.referrals fresh set p
    step-Preserves {b} (activates v user) p =
        (activate-Preserves stable uuid_string config billing v user).kept b p

    pub steps-Preserves : {b t : Ledgers} → Steps b t → P b.referrals → P t.referrals
    steps-Preserves start p = p
    steps-Preserves (next h s) p = step-Preserves s (steps-Preserves h p)
