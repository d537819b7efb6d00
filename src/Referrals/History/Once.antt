-- ===== src/Referrals/History/Once.antt =====
-- A user is referred once, and the reward for it is given once
-- (service/referralservice/service.go).
use mathlib.Core.Path.{subst}
use vk_agregator.Base.{
  ◌≡◌, refl, sym, ap, ◌∙◌, inl, inr, true, false, ◌||◌, Option, some, String, Uuid, nil_uuid, arith,
  Bool-cases, Option-cases,
}
use vk_agregator.Base.Eq.{◌==◌, uuid_key, text_key}
use vk_agregator.Base.Dict.{lookup, contains, lookup-insert_self}
use vk_agregator.Base.Action.{Result, ok, err, Result-cases, Error}
use vk_agregator.Domain.Billing.{Time}
use vk_agregator.Domain.Referral.{Referral, ReferralCode}
use vk_agregator.Billing.{or_uuid}
use vk_agregator.Billing.Service as Billing
use vk_agregator.Referrals.Repo.{
  ReferralRepo, create_referral, create_code, mark_activated, mark_reward_applied,
  get_referral_by_referred_user_id, get_code,
}
use vk_agregator.Referrals.Code.{normalize_code}
use vk_agregator.Referrals.Service.{
  ApplyInput, apply_code, Ledgers, on_referrals, Visit, Config, activate, activate_referral,
  wanted_referral, ApplyResult, answer_of, register, judge_code,
}
use vk_agregator.Referrals.Service.Links.{
  after_create-Keeps, IsReferred, IsSettled, apply_code-cases, create_code-IsSettled,
  mark_activated-IsSettled, mark_reward-IsSettled, create_referral-IsReferred,
  create_referral-settled,
}
use vk_agregator.Referrals.Service.Stable.{IsStable}
use vk_agregator.Referrals.History.{Steps, steps-Preserves}

pub IsReferred-IsStable : (user id : Uuid) → IsStable (IsReferred user id)
IsReferred-IsStable user id = record {
  codes = λ i now code. record { kept = λ r p. unfold create_code in ground (arith, p) };
  refers = λ i now code input r fresh set p.
      create_referral-IsReferred user id i now (wanted_referral code input) r p;
  marks = λ now i at. record { kept = λ r p. unfold mark_activated in ground (arith, p) };
  rewards = λ now i at. record { kept = λ r p. unfold mark_reward_applied in ground (arith, p) };
}

pub IsSettled-IsStable : (user id : Uuid) → IsStable (IsSettled user id)
IsSettled-IsStable user id = record {
  codes = λ i now code. record { kept = create_code-IsSettled user id i now code };
  refers = λ i now code input r fresh set p. (
    create_referral-IsReferred user id i now (wanted_referral code input) r p.0,
    create_referral-settled user id i now (wanted_referral code input) r refl fresh p.1,
  );
  marks = λ now i at. record { kept = mark_activated-IsSettled user id now i at };
  rewards = λ now i at. record { kept = mark_reward-IsSettled user id now i at };
}

-- Where a user has been referred, `CreateReferral` stores nothing.
create_referral-again :
    (user id i : Uuid) (now : Time) (code : ReferralCode) (input : ApplyInput) (r : ReferralRepo)
    → IsReferred user id r
    → input.referred_user_id ≡ user
    → (create_referral i now (wanted_referral code input) r).1 ≡ r
unfolding create_referral
create_referral-again user id i now code input r known same = ground (arith, known, same)

apply_code-again :
    (user id i : Uuid) (now : Time) (input : ApplyInput) (r : ReferralRepo)
    → IsReferred user id r
    → input.referred_user_id ≡ user
    → (apply_code i now input r).1 ≡ r
apply_code-again user id i now input r known same = elim (apply_code-cases i now input r) [
  | inl kept ↦ kept
  | inr (code, made) ↦ made ∙ create_referral-again user id i now code input r known same
]

-- Where the user's referral has been rewarded, `Activate` changes nothing.
pub activate-settled :
    (uuid_string : Uuid → String) (config : Config) (billing : Option Billing.Service) (v : Visit)
    (user id : Uuid) (b : Ledgers)
    → IsSettled user id b.referrals
    → (activate uuid_string config billing v user b).1 ≡ b
unfolding activate activate_referral get_referral_by_referred_user_id
activate-settled uuid_string config billing v user id b (known, settled) =
    elim (Option-cases (lookup id b.referrals.referrals_by_id)) [
      | inl missing ↦ absurd (ground (arith, missing, settled))
      | inr (row, found) ↦ ground (arith, known, found, settled)
    ]

-- A referral that `CreateReferral` stores, or finds in its way, is known under its user.
create_referral-knows :
    (id : Uuid) (now : Time) (code : ReferralCode) (input : ApplyInput) (r : ReferralRepo)
    (x : Referral)
    → (create_referral id now (wanted_referral code input) r).0 ≡ ok x
    → contains input.referred_user_id
        (create_referral id now (wanted_referral code input) r).1.referred_to_id
      ≡ true
unfolding create_referral
create_referral-knows id now code input r x went =
    ground (arith, went, lookup-insert_self input.referred_user_id (or_uuid 0 id) r.referred_to_id)

answer-knows :
    (input : ApplyInput) (e : Error) (result : ApplyResult) (r : ReferralRepo)
    → (answer_of input (err e) r).0 ≡ ok result
    → contains input.referred_user_id r.referred_to_id ≡ true
unfolding get_referral_by_referred_user_id
answer-knows input e result r went = ground (arith, went)

-- What `register` does with a code of another user.
register_open :
    (id : Uuid) (now : Time) (input : ApplyInput) (code : ReferralCode) (r : ReferralRepo)
    → code.user_id == input.referred_user_id ≡ false
    → let made = create_referral id now (wanted_referral code input) r in
      register id now input code r ≡ answer_of input made.0 made.1
unfolding register
register_open id now input code r others = rw others refl

register-knows :
    (id : Uuid) (now : Time) (input : ApplyInput) (code : ReferralCode) (result : ApplyResult)
    (x : Referral) (r : ReferralRepo)
    → (register id now input code r).0 ≡ ok result
    → result.referral ≡ some x
    → contains input.referred_user_id (register id now input code r).1.referred_to_id ≡ true
unfolding register
register-knows id now input code result x r went told =
    elim (Bool-cases (code.user_id == input.referred_user_id)) [
      | inl own ↦ absurd (ground (arith, own, went, told))
      | inr others ↦
          let made = create_referral id now (wanted_referral code input) r in
          let goes = register_open id now input code r others in
          let user = input.referred_user_id in
          subst (λ t. contains user t.referred_to_id ≡ true)
            (sym (ap (λ t. t.1) goes ∙ after_create-Keeps input made.0 made.1))
            (elim (Result-cases made.0) [
              | inl (row, stored) ↦ create_referral-knows id now code input r row stored
              | inr (e, refused) ↦ answer-knows input e result made.1 (
                  ap (λ m. (answer_of input m made.1).0) (sym refused)
                  ∙ ap (λ t. t.0) (sym goes)
                  ∙ went)
            ])
    ]

judge_code-knows :
    (id : Uuid) (now : Time) (input : ApplyInput) (found : Result ReferralCode)
    (result : ApplyResult) (x : Referral) (r : ReferralRepo)
    → (judge_code id now input found r).0 ≡ ok result
    → result.referral ≡ some x
    → contains input.referred_user_id (judge_code id now input found r).1.referred_to_id ≡ true
judge_code-knows id now input (ok code) result x r went told =
    register-knows id now input code result x r went told
judge_code-knows id now input (err e) result x r went told = absurd (ground (arith, went, told))

apply_open :
    (id : Uuid) (now : Time) (input : ApplyInput) (r : ReferralRepo)
    → (normalize_code input.code == "" || input.referred_user_id == nil_uuid) ≡ false
    → let found = get_code (normalize_code input.code) r in
      apply_code id now input r ≡ judge_code id now input found.0 found.1
unfolding apply_code
apply_open id now input r valid = rw valid refl

apply_code-knows :
    (id : Uuid) (now : Time) (input : ApplyInput) (result : ApplyResult) (x : Referral)
    (r : ReferralRepo)
    → (apply_code id now input r).0 ≡ ok result
    → result.referral ≡ some x
    → contains input.referred_user_id (apply_code id now input r).1.referred_to_id ≡ true
unfolding apply_code
apply_code-knows id now input result x r went told =
    elim (Bool-cases (normalize_code input.code == "" || input.referred_user_id == nil_uuid)) [
      | inl invalid ↦ absurd (ground (arith, invalid, went, told))
      | inr valid ↦
          let found = get_code (normalize_code input.code) r in
          let goes = apply_open id now input r valid in
          subst (λ t. contains input.referred_user_id t.1.referred_to_id ≡ true) (sym goes)
            (judge_code-knows id now input found.0 result x found.1
              (ap (λ t. t.0) (sym goes) ∙ went) told)
    ]

module _ (uuid_string : Uuid → String) (config : Config) (billing : Option Billing.Service) where
  -- A user is referred once. Where `Apply` has answered with a referral, then, after any history of
  -- code requests, invitations and activations, `Apply` for the same user, with whatever code,
  -- changes nothing.
  pub apply_code-once :
      (id id' : Uuid) (now now' : Time) (input input' : ApplyInput) (result : ApplyResult)
      (x : Referral) (b t : Ledgers)
      → (on_referrals (apply_code id now input) b).0 ≡ ok result
      → result.referral ≡ some x
      → Steps uuid_string config billing (on_referrals (apply_code id now input) b).1 t
      → input'.referred_user_id ≡ input.referred_user_id
      → (on_referrals (apply_code id' now' input') t).1 ≡ t
  apply_code-once id id' now now' input input' result x b t went told history same =
      let user = input.referred_user_id in
      let made = (apply_code id now input b.referrals).1 in
      let known = apply_code-knows id now input result x b.referrals went told in
      elim (Option-cases (lookup user made.referred_to_id)) [
        | inl missing ↦ absurd (ground (arith, missing, known))
        | inr (key, found) ↦
            let kept =
              steps-Preserves uuid_string config billing (IsReferred-IsStable user key) history
                found in
            ap (λ r. record t { referrals = r })
              (apply_code-again user key id' now' input' t.referrals kept same)
      ]
