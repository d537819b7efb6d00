-- ===== src/Referrals/Service/Links.antt =====
-- What the calls of the referral service do to what is known of a referred user
-- (service/referralservice/service.go).
use mathlib.Core.Path.{subst}
use vk_agregator.Base.{
  ◌≡◌, refl, ◌∙◌, inl, inr, Bool, true, false, ◌||◌, ◌⊎◌, nil_uuid, Option, none, some, String,
  Uuid, arith, Bool-cases, Option-cases,
}
use vk_agregator.Base.Eq.{◌==◌, uuid_key, text_key}
use vk_agregator.Base.Dict.{lookup, insert, lookup-insert}
use vk_agregator.Base.Action.{
  Keeps, chain-state, Result, ok, err, is_not_found, is_conflict, try, pure,
}
use vk_agregator.Domain.Billing.{Time}
use vk_agregator.Domain.Referral.{is_applied, is_rewarded, ReferralCode, Referral}
use vk_agregator.Referrals.Repo.{
  ReferralRepo, get_code, create_code, create_referral, referral_row, activated_row, rewarded_row,
  get_referral_by_referred_user_id, mark_activated, mark_reward_applied,
}
use vk_agregator.Referrals.Code.{normalize_code}
use vk_agregator.Referrals.Service.{
  ApplyInput, apply_code, register, wanted_referral, no_result, answer_of, judge_code,
}

abbrev pub is_settled : Referral → Bool
is_settled row = is_rewarded row.status || is_applied row.reward_status

abbrev pub settled_row : Option Referral → Bool
settled_row none = false
settled_row (some row) = is_settled row

-- The user has been referred, and that referral has been rewarded.
abbrev pub IsSettled : Uuid → Uuid → ReferralRepo → Type 0
IsSettled user id r =
    (lookup user r.referred_to_id ≡ some id) × (settled_row (lookup id r.referrals_by_id) ≡ true)

abbrev pub IsReferred : Uuid → Uuid → ReferralRepo → Type 0
IsReferred user id r = lookup user r.referred_to_id ≡ some id

module _ (user id : Uuid) where
  pub create_code-IsSettled :
      (i : Uuid) (now : Time) (code : ReferralCode) (r : ReferralRepo)
      → IsSettled user id r
      → IsSettled user id (create_code i now code r).1
  unfolding create_code
  create_code-IsSettled i now code r h = ground (arith, h)

  pub mark_activated-IsSettled :
      (now : Time) (i : Uuid) (at : Time) (r : ReferralRepo)
      → IsSettled user id r
      → IsSettled user id (mark_activated now i at r).1
  unfolding mark_activated
  mark_activated-IsSettled now i at r h = elim (Option-cases (lookup i r.referrals_by_id)) [
    | inl missing ↦ ground (arith, missing, h)
    | inr (row, found) ↦ elim (Bool-cases (is_rewarded row.status)) [
      | inl done ↦ ground (arith, found, done, h)
      | inr open_ ↦ ground (
        arith,
        h,
        lookup-insert i id (activated_row now at row) r.referrals_by_id,
        uuid_key.same_iff i id,
      )
    ]
  ]

  pub mark_reward-IsSettled :
      (now : Time) (i : Uuid) (at : Time) (r : ReferralRepo)
      → IsSettled user id r
      → IsSettled user id (mark_reward_applied now i at r).1
  unfolding mark_reward_applied
  mark_reward-IsSettled now i at r h = elim (Option-cases (lookup i r.referrals_by_id)) [
    | inl missing ↦ ground (arith, missing, h)
    | inr (row, found) ↦ ground (
      arith,
      h,
      lookup-insert i id (rewarded_row now at row) r.referrals_by_id,
      uuid_key.same_iff i id,
    )
  ]

  -- What `CreateReferral` writes under a user it writes where nothing stands.
  pub create_referral-IsReferred :
      (i : Uuid) (now : Time) (given : Referral) (r : ReferralRepo)
      → IsReferred user id r
      → IsReferred user id (create_referral i now given r).1
  unfolding create_referral
  create_referral-IsReferred i now given r h =
      let row = referral_row i now given in
      let first = insert row.referred_user_id row.id r.referred_to_id in
      ground (
        arith,
        h,
        lookup-insert row.referred_user_id user row.id r.referred_to_id,
        lookup-insert row.referred_account_id user row.id first,
        uuid_key.same_iff row.referred_user_id user,
        uuid_key.same_iff row.referred_account_id user,
      )

  pub create_referral-settled :
      (i : Uuid) (now : Time) (given : Referral) (r : ReferralRepo)
      → given.id ≡ 0
      → lookup i r.referrals_by_id ≡ none
      → settled_row (lookup id r.referrals_by_id) ≡ true
      → settled_row (lookup id (create_referral i now given r).1.referrals_by_id) ≡ true
  unfolding create_referral
  create_referral-settled i now given r unset fresh h =
      let row = referral_row i now given in
      ground (
        arith,
        h,
        fresh,
        lookup-insert row.id id row r.referrals_by_id,
        uuid_key.same_iff row.id id,
      )

pub read_referral-Keeps : (user : Uuid) → Keeps (λ t. t) (get_referral_by_referred_user_id user)
unfolding get_referral_by_referred_user_id
read_referral-Keeps user r = ground arith

read_code-Keeps : (value : String) → Keeps (λ t. t) (get_code value)
unfolding get_code
read_code-Keeps value r = ground arith

pub after_create-Keeps :
    (input : ApplyInput) (made : Result Referral) → Keeps (λ t. t) (answer_of input made)
after_create-Keeps input (ok referral) r = refl
after_create-Keeps input (err e) r = elim (Bool-cases (is_conflict e)) [
  | inr no_clash ↦ rw no_clash refl
  | inl clash ↦ rw clash (
      chain-state (get_referral_by_referred_user_id input.referred_user_id)
        (λ existing. pure (record no_result { already_applied = true; referral = some existing })) r
        (λ a t. refl)
      ∙ read_referral-Keeps input.referred_user_id r)
]

-- What `register` leaves is what `CreateReferral` leaves, or what it found.
register-cases :
    (id : Uuid) (now : Time) (input : ApplyInput) (code : ReferralCode) (r : ReferralRepo)
    → ((register id now input code r).1 ≡ r)
      ⊎ ((register id now input code r).1
          ≡ (create_referral id now (wanted_referral code input) r).1)
unfolding register
register-cases id now input code r = elim (Bool-cases (code.user_id == input.referred_user_id)) [
  | inl own ↦ inl (rw own refl)
  | inr others ↦ inr (
      rw others (
        chain-state (try (create_referral id now (wanted_referral code input))) (answer_of input) r
          (after_create-Keeps input)))
]

judge_code-cases :
    (id : Uuid) (now : Time) (input : ApplyInput) (found : Result ReferralCode) (r : ReferralRepo)
    → ((judge_code id now input found r).1 ≡ r)
      ⊎ ((code : ReferralCode) × ((judge_code id now input found r).1
            ≡ (create_referral id now (wanted_referral code input) r).1))
judge_code-cases id now input (ok code) r = elim (register-cases id now input code r) [
  | inl same ↦ inl same
  | inr made ↦ inr (code, made)
]
judge_code-cases id now input (err e) r = elim (Bool-cases (is_not_found e)) [
  | inl h ↦ inl (rw h refl)
  | inr h ↦ inl (rw h refl)
]

-- What `Apply` leaves is what `CreateReferral` leaves, or what it found.
pub apply_code-cases :
    (id : Uuid) (now : Time) (input : ApplyInput) (r : ReferralRepo)
    → ((apply_code id now input r).1 ≡ r)
      ⊎ ((code : ReferralCode) × ((apply_code id now input r).1
            ≡ (create_referral id now (wanted_referral code input) r).1))
unfolding apply_code
apply_code-cases id now input r =
    elim (Bool-cases (normalize_code input.code == "" || input.referred_user_id == nil_uuid)) [
      | inl invalid ↦ inl (rw invalid refl)
      | inr valid ↦
          let reads = get_code (normalize_code input.code) in
          let judged = judge_code id now input (reads r).0 (reads r).1 in
          rw valid (
            subst
              (λ t.
                (judged.1 ≡ t)
                ⊎ ((code : ReferralCode) × (judged.1
                      ≡ (create_referral id now (wanted_referral code input) t).1)))
              (read_code-Keeps (normalize_code input.code) r)
              (judge_code-cases id now input (reads r).0 (reads r).1))
    ]
