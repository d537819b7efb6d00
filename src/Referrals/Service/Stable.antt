-- ===== src/Referrals/Service/Stable.antt =====
-- What no write of the referral service breaks, no call of it breaks
-- (service/referralservice/service.go).
use mathlib.Core.Path.{subst}
use vk_agregator.Base.{
  ◌≡◌, sym, inl, inr, Bool, true, false, ◌||◌, Option, none, ℕ, zero, suc, String, Uuid, nil_uuid,
  arith,
}
use vk_agregator.Base.Eq.{◌==◌, uuid_key, text_key}
use vk_agregator.Base.Dict.{lookup}
use vk_agregator.Base.Action.{Action, is_not_found, is_conflict, other, pure, ◌>>◌}
use vk_agregator.Base.Preserves.{
  Preserves, chain-Preserves, then-Preserves, if-Preserves, pure-Preserves, raise-Preserves,
  of_result-Preserves, result-Preserves, try-Preserves, raise_if-Preserves, option-Preserves,
  preserving,
}
use vk_agregator.Domain.Billing.{Time}
use vk_agregator.Domain.Referral.{ReferralCode, Referral}
use vk_agregator.Billing.Repo.{BillingRepo}
use vk_agregator.Billing.Service as Billing
use vk_agregator.Referrals.Repo.{
  ReferralRepo, get_code_by_user_id, create_code, create_referral, get_referral_by_referred_user_id,
  mark_activated, mark_reward_applied,
}
use vk_agregator.Referrals.Service.{
  Attempts, allocate_code, ensure_code, ApplyInput, apply_code, Ledgers, on_referrals, on_billing,
  Visit, activate, activate_referral, mark_once, reward, apply_signup_rewards, grant_rewards,
  Config, ActivateResult, not_activated, wanted_code, wanted_referral, reward_is_set,
  marked_rewarded,
}
use vk_agregator.Referrals.Service.Links.{apply_code-cases, read_referral-Keeps}

pub record IsStable (P : ReferralRepo → Type 0) : Type 0 where
  pub codes : (id : Uuid) (now : Time) (code : ReferralCode) → Preserves P (create_code id now code)
  -- A referral that is stored under an identifier that is new.
  pub refers :
      (id : Uuid) (now : Time) (code : ReferralCode) (input : ApplyInput) (r : ReferralRepo)
      → lookup id r.referrals_by_id ≡ none
      → id == nil_uuid ≡ false
      → P r
      → P (create_referral id now (wanted_referral code input) r).1
  pub marks : (now : Time) (id : Uuid) (at : Time) → Preserves P (mark_activated now id at)
  pub rewards : (now : Time) (id : Uuid) (at : Time) → Preserves P (mark_reward_applied now id at)

module _ {P : ReferralRepo → Type 0} (stable : IsStable P) where
  reads_code : (user : Uuid) → Preserves P (get_code_by_user_id user)
  unfolding get_code_by_user_id
  reads_code user = record { kept = λ r p. ground (arith, p) }

  allocate-Preserves : (a : Attempts) (user : Uuid) (n : ℕ) → Preserves P (allocate_code a user n)
  allocate-Preserves a user zero = raise-Preserves _
  allocate-Preserves a user (suc n) = chain-Preserves (of_result-Preserves (a.new_code n)) (λ value.
      chain-Preserves (try-Preserves (stable.codes (a.id n) a.now (wanted_code user value)))
        (λ made. result-Preserves made pure-Preserves (λ e.
          if-Preserves {test = is_conflict e}
            (λ _.
              chain-Preserves (try-Preserves (reads_code user))
                (λ again. result-Preserves again pure-Preserves (λ _. allocate-Preserves a user n)))
            (λ _. raise-Preserves e))))

  pub ensure-Preserves : (a : Attempts) (user : Uuid) → Preserves P (ensure_code a user)
  unfolding ensure_code
  ensure-Preserves a user = chain-Preserves (try-Preserves (reads_code user)) (λ found.
      result-Preserves found pure-Preserves (λ e.
        if-Preserves {test = is_not_found e} (λ _. allocate-Preserves a user 8)
          (λ _. raise-Preserves e)))

  pub apply_code-kept :
      (id : Uuid) (now : Time) (input : ApplyInput) (r : ReferralRepo)
      → lookup id r.referrals_by_id ≡ none
      → id == nil_uuid ≡ false
      → P r
      → P (apply_code id now input r).1
  apply_code-kept id now input r fresh set p = elim (apply_code-cases id now input r) [
    | inl same ↦ subst P (sym same) p
    | inr (code, made) ↦ subst P (sym made) (stable.refers id now code input r fresh set p)
  ]

  abbrev OnBoth : Ledgers → Type 0
  OnBoth b = P b.referrals

  lift :
      {A : Type 0} {m : Action ReferralRepo A} → Preserves P m → Preserves OnBoth (on_referrals m)
  lift first = record { kept = λ b p. first.kept b.referrals p }

  bills : {A : Type 0} (m : Action BillingRepo A) → Preserves OnBoth (on_billing m)
  bills m = record { kept = λ b p. p }

  reads_referral : (user : Uuid) → Preserves P (get_referral_by_referred_user_id user)
  reads_referral user = record { kept = λ r p. subst P (sym (read_referral-Keeps user r)) p }

  module _ (uuid_string : Uuid → String) (config : Config) (billing : Option Billing.Service) where
    marked :
        (v : Visit) (referral answer : Referral)
        → Preserves OnBoth
            (on_referrals (mark_reward_applied v.stored referral.id v.rewarded_at) >> pure answer)
    marked v referral answer =
        then-Preserves (lift (stable.rewards v.stored referral.id v.rewarded_at))
          (pure-Preserves answer)

    rewards-Preserves :
        (v : Visit) (referral : Referral)
        → Preserves OnBoth (apply_signup_rewards uuid_string config billing v referral)
    unfolding apply_signup_rewards
    rewards-Preserves v referral =
        if-Preserves (λ _. pure-Preserves referral)
          (λ _.
            option-Preserves billing
              (then-Preserves
                (raise_if-Preserves
                  (reward_is_set config.referrer_signup_reward_credits
                    || reward_is_set config.referred_signup_reward_credits)
                  (other "referralservice: billing service is required for referral rewards"))
                (marked v referral referral))
              (λ s.
                then-Preserves (bills (grant_rewards uuid_string config billing s v referral))
                  (marked v referral (marked_rewarded uuid_string config billing v referral))))

    mark-Preserves :
        (v : Visit) (referral : Referral)
        → Preserves OnBoth (mark_once uuid_string config billing v referral)
    unfolding mark_once
    mark-Preserves v referral = search (preserving, lift, stable.marks) depth 12

    reward-Preserves :
        (v : Visit) (t : Bool × Referral) → Preserves OnBoth (reward uuid_string config billing v t)
    unfolding reward
    reward-Preserves v t = search (preserving, rewards-Preserves) depth 12

    activate_referral-Preserves :
        (v : Visit) (referral : Referral)
        → Preserves OnBoth (activate_referral uuid_string config billing v referral)
    unfolding activate_referral
    activate_referral-Preserves v referral =
        search (preserving, mark-Preserves, reward-Preserves) depth 12

    pub activate-Preserves :
        (v : Visit) (user : Uuid) → Preserves OnBoth (activate uuid_string config billing v user)
    unfolding activate
    activate-Preserves v user =
        if-Preserves {test = user == nil_uuid} (λ _. pure-Preserves missing)
          (λ _. chain-Preserves (try-Preserves (lift (reads_referral user))) (λ found.
            result-Preserves found (activate_referral-Preserves v) (λ e.
              if-Preserves {test = is_not_found e} (λ _. pure-Preserves missing)
                (λ _. raise-Preserves e))))
      where
        missing : ActivateResult
        missing = record not_activated { not_found = true }
