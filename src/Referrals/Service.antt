-- ===== src/Referrals/Service.antt =====
-- service/referralservice/service.go: codes for users, invitations that are accepted, and the rewards
-- for them.
pub mod Links
pub mod Stable
use Prim.Native.String.{◌++◌}
use vk_agregator.Base.{
  ℕ, zero, suc, String, Bool, true, false, not, ◌&&◌, ◌||◌, Option, none, some, Uuid, nil_uuid,
  if◌then◌else◌,
}
use vk_agregator.Base.Eq.{◌==◌, uuid_key, text_key}
use vk_agregator.Base.Int.{ℤ, pos, ltb_ℤ}
use vk_agregator.Base.Action.{
  Action, Result, ok, err, other, is_not_found, is_conflict, pure, raise, raise_if, of_result, try,
  ◌>>=◌, ◌>>◌,
}
use vk_agregator.Domain.Billing.{Time}
use vk_agregator.Domain.Referral.{
  ReferralSource, source_vk_bot, RewardStatus, ReferralStatus, is_applied, is_rewarded,
  is_activated, ReferralStats, stats_total, ReferralCode, Referral,
}
use vk_agregator.Billing.{Draw}
use vk_agregator.Billing.Repo.{BillingRepo}
use vk_agregator.Billing.Service.{grant_with_owner}
use vk_agregator.Billing.Service as Billing
use vk_agregator.Referrals.Repo.{
  ReferralRepo, get_code_by_user_id, get_code, create_code, create_referral,
  get_referral_by_referred_user_id, mark_activated, mark_reward_applied, or_time,
}
use vk_agregator.Referrals.Repo.Funnel.{count_by_referrer_status}
use vk_agregator.Referrals.Code.{normalize_code}

pub record Config : Type 0 where
  pub referrer_signup_reward_credits : ℤ
  pub referred_signup_reward_credits : ℤ
  pub reward_on_activation : Bool

-- What `EnsureCode` takes from outside: the answers of the code generator and of `uuid.New`, by the
-- attempts that are left, and the repository's clock.
pub record Attempts : Type 0 where
  pub new_code : ℕ → Result String
  pub id : ℕ → Uuid
  pub now : Time

abbrev pub wanted_code : Uuid → String → ReferralCode
wanted_code user value = record {
  id = nil_uuid;
  user_id = user;
  account_id = nil_uuid;
  code = value;
  created_at = 0;
  updated_at = 0;
}

-- The loop of `EnsureCode`, by the attempts that are left.
abbrev pub allocate_code : Attempts → Uuid → ℕ → Action ReferralRepo ReferralCode
allocate_code a user zero = raise (other "referralservice: could not allocate unique referral code")
allocate_code a user (suc n) = do
  value ← of_result (a.new_code n)
  made ← try (create_code (a.id n) a.now (wanted_code user value))
  elim made [
    | ok code ↦ pure code
    | err e ↦
        if is_conflict e
        then (do
          again ← try (get_code_by_user_id user)
          elim again [ ok existing ↦ pure existing | err _ ↦ allocate_code a user n ])
        else raise e
  ]

unfoldable pub ensure_code : Attempts → Uuid → Action ReferralRepo ReferralCode
ensure_code a user = do
  found ← try (get_code_by_user_id user)
  elim found [
    | ok code ↦ pure code
    | err e ↦ if is_not_found e then allocate_code a user 8 else raise e
  ]

pub record ApplyInput : Type 0 where
  pub code : String
  pub referred_user_id : Uuid
  pub source : ReferralSource

pub record ApplyResult : Type 0 where
  pub applied : Bool
  pub already_applied : Bool
  pub invalid_code : Bool
  pub self_referral : Bool
  pub referral : Option Referral

abbrev pub no_result : ApplyResult
no_result = record {
  applied = false;
  already_applied = false;
  invalid_code = false;
  self_referral = false;
  referral = none;
}

abbrev pub wanted_referral : ReferralCode → ApplyInput → Referral
wanted_referral code input = record {
  id = nil_uuid;
  referrer_user_id = code.user_id;
  referrer_account_id = nil_uuid;
  referred_user_id = input.referred_user_id;
  referred_account_id = nil_uuid;
  referral_code = code.code;
  source = if input.source == "" then source_vk_bot else input.source;
  status = ReferralStatus.registered;
  reward_status = RewardStatus.pending;
  first_seen_at = 0;
  activated_at = none;
  rewarded_at = none;
  created_at = 0;
  updated_at = 0;
}

-- What is made of the answer of `CreateReferral`.
abbrev pub answer_of : ApplyInput → Result Referral → Action ReferralRepo ApplyResult
answer_of input (ok referral) = pure (record no_result { applied = true; referral = some referral })
answer_of input (err e) =
    if is_conflict e
    then (do
      existing ← get_referral_by_referred_user_id input.referred_user_id
      pure (record no_result { already_applied = true; referral = some existing }))
    else raise e

-- What becomes of a code that is found.
unfoldable pub register : Uuid → Time → ApplyInput → ReferralCode → Action ReferralRepo ApplyResult
register id now input code =
    if code.user_id == input.referred_user_id
    then pure (record no_result { self_referral = true })
    else do made ← try (create_referral id now (wanted_referral code input)); answer_of input made

-- What is made of the answer of `GetCode`.
abbrev pub judge_code :
    Uuid → Time → ApplyInput → Result ReferralCode → Action ReferralRepo ApplyResult
judge_code id now input (ok code) = register id now input code
judge_code id now input (err e) =
    if is_not_found e then pure (record no_result { invalid_code = true }) else raise e

-- `Apply`; the identifier is the one that `uuid.New` draws.
unfoldable pub apply_code : Uuid → Time → ApplyInput → Action ReferralRepo ApplyResult
unfolding register
apply_code id now input =
    if normalize_code input.code == "" || input.referred_user_id == nil_uuid
    then pure (record no_result { invalid_code = true })
    else do found ← try (get_code (normalize_code input.code)); judge_code id now input found

-- `Stats` and `StatsDetailed`
unfoldable pub stats_detailed : Attempts → Uuid → Action ReferralRepo (ReferralCode × ReferralStats)
unfolding ensure_code
stats_detailed a user = do
  code ← ensure_code a user
  stats ← count_by_referrer_status user
  pure (code, stats)

unfoldable pub stats : Attempts → Uuid → Action ReferralRepo (ReferralCode × ℕ)
unfolding stats_detailed
stats a user = do found ← stats_detailed a user; pure (found.0, stats_total found.1)

-- The repositories of referrals and of the ledger.
pub record Ledgers : Type 0 where
  pub referrals : ReferralRepo
  pub billing : BillingRepo

module _ {A : Type 0} where
  abbrev pub on_referrals : Action ReferralRepo A → Action Ledgers A
  on_referrals m b = let (a, referrals) = m b.referrals in (a, record b { referrals = referrals })

  abbrev pub on_billing : Action BillingRepo A → Action Ledgers A
  on_billing m b = let (a, billing) = m b.billing in (a, record b { billing = billing })

pub record ActivateResult : Type 0 where
  pub activated : Bool
  pub rewarded : Bool
  pub already_rewarded : Bool
  pub not_found : Bool
  pub referral : Option Referral

abbrev pub not_activated : ActivateResult
not_activated = record {
  activated = false;
  rewarded = false;
  already_rewarded = false;
  not_found = false;
  referral = none;
}

-- What `Activate` takes from outside: the service's clock, twice, the repository's clock, and what
-- each of the two grants draws.
pub record Visit : Type 0 where
  pub activated_at : Time
  pub rewarded_at : Time
  pub stored : Time
  pub referrer_account : Draw
  pub referrer_entry : Draw
  pub referred_account : Draw
  pub referred_entry : Draw

abbrev pub reward_is_set : ℤ → Bool
reward_is_set amount = ltb_ℤ (pos 0) amount

module _ (uuid_string : Uuid → String) (config : Config) (billing : Option Billing.Service) where
  unfoldable pub grant_rewards : Billing.Service → Visit → Referral → Action BillingRepo (Unit {0})
  grant_rewards s v referral = do
    if reward_is_set config.referrer_signup_reward_credits
        then grant_with_owner uuid_string s v.referrer_account v.referrer_entry
            referral.referrer_user_id referral.referrer_account_id
            config.referrer_signup_reward_credits
            ("referral:signup:referrer:" ++ uuid_string referral.id) "referral signup reward"
        else pure tt
    if reward_is_set config.referred_signup_reward_credits
        then grant_with_owner uuid_string s v.referred_account v.referred_entry
            referral.referred_user_id referral.referred_account_id
            config.referred_signup_reward_credits
            ("referral:signup:referred:" ++ uuid_string referral.id) "referral signup bonus"
        else pure tt

  abbrev pub marked_rewarded : Visit → Referral → Referral
  marked_rewarded v referral = record referral {
    status = ReferralStatus.rewarded;
    reward_status = RewardStatus.applied;
    activated_at = or_time referral.activated_at v.rewarded_at;
    rewarded_at = some v.rewarded_at;
  }

  -- `applySignupRewards`, with the referral as the caller sees it afterwards.
  unfoldable pub apply_signup_rewards : Visit → Referral → Action Ledgers Referral
  unfolding grant_rewards
  apply_signup_rewards v referral =
      if referral.id == nil_uuid then pure referral else elim billing [
        | none ↦ do
          raise_if
              (reward_is_set config.referrer_signup_reward_credits
                || reward_is_set config.referred_signup_reward_credits)
              (other "referralservice: billing service is required for referral rewards")
          on_referrals (mark_reward_applied v.stored referral.id v.rewarded_at)
          pure referral
        | some s ↦ do
          on_billing (grant_rewards s v referral)
          on_referrals (mark_reward_applied v.stored referral.id v.rewarded_at)
          pure (marked_rewarded v referral)
      ]

  -- Whether the referral is activated now, and the referral afterwards.
  unfoldable pub mark_once : Visit → Referral → Action Ledgers (Bool × Referral)
  mark_once v referral = if is_activated referral.status then pure (false, referral) else do
    on_referrals (mark_activated v.stored referral.id v.activated_at)
    pure (
      true,
      record referral {
        status = ReferralStatus.activated;
        activated_at = or_time referral.activated_at v.activated_at;
      },
    )

  unfoldable pub reward : Visit → Bool × Referral → Action Ledgers ActivateResult
  unfolding apply_signup_rewards
  reward v (newly, referral) =
      if not config.reward_on_activation
      then pure (record not_activated { activated = newly; referral = some referral })
      else do
        row ← apply_signup_rewards v referral
        pure (record not_activated { activated = newly; rewarded = true; referral = some row })

  unfoldable pub activate_referral : Visit → Referral → Action Ledgers ActivateResult
  unfolding mark_once reward
  activate_referral v referral =
      if is_rewarded referral.status || is_applied referral.reward_status
      then pure (record not_activated { already_rewarded = true; referral = some referral })
      else mark_once v referral >>= reward v

  -- `Activate`, for the referred user.
  unfoldable pub activate : Visit → Uuid → Action Ledgers ActivateResult
  unfolding activate_referral
  activate v user =
      if user == nil_uuid then pure (record not_activated { not_found = true }) else do
        found ← try (on_referrals (get_referral_by_referred_user_id user))
        elim found [
          | ok referral ↦ activate_referral v referral
          | err e ↦
              if is_not_found e then pure (record not_activated { not_found = true }) else raise e
        ]
