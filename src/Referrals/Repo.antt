-- ===== src/Referrals/Repo.antt =====
-- adapter/storage/memory/referral.go: `ReferralRepo`, its state and the methods that write it. Each
-- method holds the mutex from start to end, so it is one step on the state.
pub mod Funnel
pub mod Total
use vk_agregator.Base.{
  String, Bool, true, false, not, ◌&&◌, ◌||◌, Option, none, some, List, [], ◌∷◌, ◌++◌, Uuid,
  nil_uuid, nat_beq, if◌then◌else◌,
}
use vk_agregator.Base.Eq.{◌==◌, uuid_key, text_key}
use vk_agregator.Base.Dict.{Dict, lookup, insert, contains, lookup_or}
use vk_agregator.Base.Action.{
  Action, Result, ok, err, not_found, conflict, pure, raise, or_raise, gets, modify, raise_if,
  ◌>>=◌, ◌>>◌,
}
use vk_agregator.Domain.Billing.{Time}
use vk_agregator.Domain.Referral.{
  source_vk_bot, RewardStatus, ReferralStatus, is_rewarded, ReferralCode, Referral,
}
use vk_agregator.Billing.{or_uuid}

pub record ReferralRepo : Type 0 where
  pub codes_by_user : Dict Uuid ReferralCode
  pub codes_by_value : Dict String Uuid
  pub referrals_by_id : Dict Uuid Referral
  pub referred_to_id : Dict Uuid Uuid
  pub referrer_to_refs : Dict Uuid (List Uuid)

abbrev pub new_referral_repo : ReferralRepo
new_referral_repo = record {
  codes_by_user = [];
  codes_by_value = [];
  referrals_by_id = [];
  referred_to_id = [];
  referrer_to_refs = [];
}

unfoldable pub get_code_by_user_id : Uuid → Action ReferralRepo ReferralCode
get_code_by_user_id user = do or_raise (← gets λ r. lookup user r.codes_by_user) not_found

-- An index leads to a row; where it did not, Go would answer with its zero value.
unfoldable pub get_code : String → Action ReferralRepo ReferralCode
get_code value = do
  user ← or_raise (← gets λ r. lookup value r.codes_by_value) not_found
  or_raise (← gets λ r. lookup user r.codes_by_user) not_found

abbrev pub code_row : Uuid → Time → ReferralCode → ReferralCode
code_row id now code = record code {
  id = or_uuid code.id id;
  account_id = or_uuid code.account_id code.user_id;
  created_at = now;
  updated_at = now;
}

-- Whether the account is one of its own, not the user's.
abbrev pub apart : Uuid → Uuid → Bool
apart account user = not (account == nil_uuid) && not (account == user)

abbrev pub store_code : ReferralCode → ReferralRepo → ReferralRepo
store_code row r =
    let by_user = insert row.user_id row r.codes_by_user in
    record r {
      codes_by_user =
          if apart row.account_id row.user_id then insert row.account_id row by_user else by_user;
      codes_by_value = insert row.code row.user_id r.codes_by_value;
    }

-- `CreateCode`, with the code as the caller sees it afterwards.
unfoldable pub create_code : Uuid → Time → ReferralCode → Action ReferralRepo ReferralCode
create_code id now code = do
  raise_if (← gets λ r. contains code.user_id r.codes_by_user) conflict
  let row = code_row id now code
  raise_if
      (← gets λ r. not (row.account_id == row.user_id) && contains row.account_id r.codes_by_user)
      conflict
  raise_if (← gets λ r. contains row.code r.codes_by_value) conflict
  modify (store_code row)
  pure row

abbrev or_registered : ReferralStatus → ReferralStatus
or_registered ReferralStatus.unset = ReferralStatus.registered
or_registered s = s

abbrev or_pending : RewardStatus → RewardStatus
or_pending RewardStatus.unset = RewardStatus.pending
or_pending s = s

abbrev pub referral_row : Uuid → Time → Referral → Referral
referral_row id now referral = record referral {
  id = or_uuid referral.id id;
  referrer_account_id = or_uuid referral.referrer_account_id referral.referrer_user_id;
  referred_account_id = or_uuid referral.referred_account_id referral.referred_user_id;
  source = if referral.source == "" then source_vk_bot else referral.source;
  status = or_registered referral.status;
  reward_status = or_pending referral.reward_status;
  first_seen_at = if nat_beq referral.first_seen_at 0 then now else referral.first_seen_at;
  created_at = now;
  updated_at = now;
}

abbrev add_ref : Uuid → Uuid → Dict Uuid (List Uuid) → Dict Uuid (List Uuid)
add_ref owner id refs = insert owner (lookup_or [] owner refs ++ id ∷ []) refs

abbrev pub store_referral : Referral → ReferralRepo → ReferralRepo
store_referral row r =
    let referred = insert row.referred_user_id row.id r.referred_to_id in
    let refs = add_ref row.referrer_user_id row.id r.referrer_to_refs in
    record r {
      referrals_by_id = insert row.id row r.referrals_by_id;
      referred_to_id =
          if apart row.referred_account_id row.referred_user_id
          then insert row.referred_account_id row.id referred
          else referred;
      referrer_to_refs =
          if apart row.referrer_account_id row.referrer_user_id
          then add_ref row.referrer_account_id row.id refs
          else refs;
    }

-- `CreateReferral`, with the referral as the caller sees it afterwards.
unfoldable pub create_referral : Uuid → Time → Referral → Action ReferralRepo Referral
create_referral id now referral = do
  let row = referral_row id now referral
  raise_if
      (row.referrer_user_id == row.referred_user_id
        || row.referrer_account_id == row.referred_account_id)
      conflict
  raise_if (← gets λ r. contains row.referred_user_id r.referred_to_id) conflict
  raise_if
      (← gets λ r.
        apart row.referred_account_id row.referred_user_id
        && contains row.referred_account_id r.referred_to_id)
      conflict
  modify (store_referral row)
  pure row

unfoldable pub get_referral_by_referred_user_id : Uuid → Action ReferralRepo Referral
get_referral_by_referred_user_id user = do
  id ← or_raise (← gets λ r. lookup user r.referred_to_id) not_found
  or_raise (← gets λ r. lookup id r.referrals_by_id) not_found

-- A time that is kept where it is set already.
abbrev pub or_time : Option Time → Time → Option Time
or_time none now = some now
or_time (some t) now = some t

abbrev or_activated : ReferralStatus → ReferralStatus
or_activated ReferralStatus.unset = ReferralStatus.activated
or_activated ReferralStatus.registered = ReferralStatus.activated
or_activated s = s

abbrev pub activated_row : Time → Time → Referral → Referral
activated_row now at referral = record referral {
  status = or_activated referral.status;
  activated_at = or_time referral.activated_at at;
  updated_at = now;
}

abbrev pub rewarded_row : Time → Time → Referral → Referral
rewarded_row now at referral = record referral {
  status = ReferralStatus.rewarded;
  reward_status = RewardStatus.applied;
  activated_at = or_time referral.activated_at at;
  rewarded_at = some at;
  updated_at = now;
}

unfoldable pub mark_activated : Time → Uuid → Time → Action ReferralRepo (Unit {0})
mark_activated now id at = do
  referral ← or_raise (← gets λ r. lookup id r.referrals_by_id) not_found
  raise_if (is_rewarded referral.status) not_found
  modify λ r. record r {
    referrals_by_id = insert id (activated_row now at referral) r.referrals_by_id;
  }

unfoldable pub mark_reward_applied : Time → Uuid → Time → Action ReferralRepo (Unit {0})
mark_reward_applied now id at = do
  referral ← or_raise (← gets λ r. lookup id r.referrals_by_id) not_found
  modify
      λ r. record r { referrals_by_id = insert id (rewarded_row now at referral) r.referrals_by_id }
