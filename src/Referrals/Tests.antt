-- ===== src/Referrals/Tests.antt =====
-- Tests of invitations (service/referralservice/service.go), and the theorems at concrete inputs.
use Prim.Native.String.{◌++◌}
use vk_agregator.Base.{zero, suc, String, ◌≡◌, refl, true, none, some, [], ◌∷◌, Uuid, arith}
use vk_agregator.Base.Eq.{uuid_key, text_key}
use vk_agregator.Base.Text.{trim_space, is_space, to_upper}
use vk_agregator.Base.Int.{pos, ◌+ℤ◌, ◌-ℤ◌}
use vk_agregator.Base.Int64.{◌+₆₄◌, ◌-₆₄◌, neg64, wrap64}
use vk_agregator.Base.Action.{ok}
use vk_agregator.Domain.Referral.{Referral, ReferralStatus, RewardStatus, stats_total}
use vk_agregator.Billing.{grant_open_key, user_currency_key}
use vk_agregator.Billing.Repo.{
  new_billing_repo, create_account, append_entry, append_locked, completed, get_account_by_user,
  balance,
}
use vk_agregator.Billing.Service.{
  new_service, grant_with_owner, ensure_account_with, create_or_read,
}
use vk_agregator.Referrals.Repo.{
  new_referral_repo, get_code_by_user_id, get_code, create_code, create_referral,
  get_referral_by_referred_user_id, mark_activated, mark_reward_applied,
}
use vk_agregator.Referrals.Repo.Funnel.{
  add_referral_status, count_by_referrer, count_by_referrer_status,
}
use vk_agregator.Referrals.Repo.Total.{count_by_referrer-total}
use vk_agregator.Referrals.Code.{normalize_code, generate_code}
use vk_agregator.Referrals.Code.Accepted.{generate_code-accepted}
use vk_agregator.Referrals.Service.{
  Config, Attempts, ensure_code, ApplyInput, no_result, register, apply_code, Ledgers, on_referrals,
  Visit, not_activated, grant_rewards, apply_signup_rewards, mark_once, reward, activate_referral,
  activate,
}
use vk_agregator.Referrals.History.{start, next, ensures, applies, activates}
use vk_agregator.Referrals.History.Once.{apply_code-once}
use vk_agregator.Referrals.History.Rewarded.{activate-once}

-- What a run computes with.
runs : Unit {0}
unfolding create_account append_entry append_locked completed get_account_by_user grant_with_owner
    ensure_account_with create_or_read ◌+₆₄◌ ◌-₆₄◌ neg64 wrap64 ◌+ℤ◌ ◌-ℤ◌ grant_open_key
    user_currency_key trim_space is_space to_upper stats_total get_code_by_user_id get_code
    create_code create_referral get_referral_by_referred_user_id mark_activated mark_reward_applied
    add_referral_status count_by_referrer count_by_referrer_status normalize_code generate_code
    ensure_code register apply_code grant_rewards apply_signup_rewards mark_once reward
    activate_referral activate
runs = tt

abbrev id_text : Uuid → String
id_text zero = "0"
id_text (suc n) = "1" ++ id_text n

abbrev config : Config
config = record {
  referrer_signup_reward_credits = pos 20;
  referred_signup_reward_credits = pos 10;
  reward_on_activation = true;
}

abbrev attempts : Attempts
attempts = record { new_code = λ n. ok "ABCD"; id = λ n. 5; now = 1 }

abbrev empty : Ledgers
empty = record { referrals = new_referral_repo; billing = new_billing_repo }

abbrev with_code : Ledgers
with_code = (on_referrals (ensure_code attempts 1) empty).1

abbrev input : ApplyInput
input = record { code = " abcd "; referred_user_id = 2; source = "" }

-- User 2 joins by the code of user 1.
abbrev joined : Ledgers
joined = (on_referrals (apply_code 9 3 input) with_code).1

abbrev visit : Visit
visit = record {
  activated_at = 6;
  rewarded_at = 7;
  stored = 8;
  referrer_account = record { id = 30; entry_id = 31; now = 8 };
  referrer_entry = record { id = 32; entry_id = 33; now = 8 };
  referred_account = record { id = 40; entry_id = 41; now = 8 };
  referred_entry = record { id = 42; entry_id = 43; now = 8 };
}

abbrev rewarded : Ledgers
rewarded = (activate id_text config (some new_service) visit 2 joined).1

rewarded_balances : (balance 30 rewarded.billing ≡ pos 50) × (balance 40 rewarded.billing ≡ pos 40)
unfolding runs
rewarded_balances = (refl, refl)

abbrev referral : Referral
referral = record {
  id = 9;
  referrer_user_id = 1;
  referrer_account_id = 1;
  referred_user_id = 2;
  referred_account_id = 2;
  referral_code = "ABCD";
  source = "vk_bot";
  status = ReferralStatus.registered;
  reward_status = RewardStatus.pending;
  first_seen_at = 3;
  activated_at = none;
  rewarded_at = none;
  created_at = 3;
  updated_at = 3;
}

apply_code-once_example : (on_referrals (apply_code 11 5 input) rewarded).1 ≡ rewarded
unfolding runs
apply_code-once_example =
    apply_code-once id_text config (some new_service) 9 11 3 5 input input
      (record no_result { applied = true; referral = some referral }) referral with_code rewarded
      refl refl (next start (activates visit 2)) refl

activate-once_example : (activate id_text config (some new_service) visit 2 rewarded).1 ≡ rewarded
unfolding runs
activate-once_example =
    activate-once id_text config (some new_service) visit visit 2
      (record not_activated {
        activated = true;
        rewarded = true;
        referral = some (record referral {
          status = ReferralStatus.rewarded;
          reward_status = RewardStatus.applied;
          activated_at = some 6;
          rewarded_at = some 7;
        });
      })
      new_billing_repo joined rewarded
      (next (next start (ensures attempts 1)) (applies 9 3 input refl refl)) refl refl start

count_by_referrer-total_example :
    stats_total (record { registered_count = 0; activated_count = 0; rewarded_count = 1 }) ≡ 1
unfolding runs
count_by_referrer-total_example =
    count_by_referrer-total 1 rewarded.referrals 1
      (record { registered_count = 0; activated_count = 0; rewarded_count = 1 }) refl refl

generate_code-accepted_example : normalize_code "Z2A9" ≡ "Z2A9"
unfolding runs
generate_code-accepted_example =
    generate_code-accepted (λ n. ok (255 ∷ 32 ∷ 8 ∷ 7 ∷ [])) (pos 4) "Z2A9" refl (omega arith)
      (omega arith)
