-- ===== src/Referrals/History/Rewarded.antt =====
-- The reward of a referral is given once (service/referralservice/service.go).
use mathlib.Core.Path.{subst}
use vk_agregator.Base.{
  ◌≡◌, refl, sym, ap, ◌∙◌, inl, inr, Bool, true, false, ◌||◌, Option, none, some, String, Uuid,
  nil_uuid, arith, Bool-cases, Option-cases, if◌then◌else◌,
}
use vk_agregator.Base.Eq.{◌==◌, uuid_key, text_key}
use vk_agregator.Base.Dict.{lookup, lookup-insert_self}
use vk_agregator.Base.Action.{
  Action, ok, err, other, chain_ok, chain-by, try, pure, raise, is_not_found, raise_if, ◌>>=◌, ◌>>◌,
}
use vk_agregator.Domain.Billing.{Time}
use vk_agregator.Domain.Referral.{Referral}
use vk_agregator.Billing.Repo.{BillingRepo}
use vk_agregator.Billing.Service as Billing
use vk_agregator.Referrals.Repo.{
  ReferralRepo, mark_activated, mark_reward_applied, rewarded_row, get_referral_by_referred_user_id,
  new_referral_repo,
}
use vk_agregator.Referrals.Service.{
  Ledgers, on_referrals, on_billing, Visit, Config, activate, activate_referral, mark_once, reward,
  apply_signup_rewards, grant_rewards, not_activated, ActivateResult, reward_is_set,
  marked_rewarded,
}
use vk_agregator.Referrals.Service.Links.{is_settled, settled_row}
use vk_agregator.Referrals.Service.Stable.{activate-Preserves}
use vk_agregator.Referrals.History.{Steps, steps-Preserves}
use vk_agregator.Referrals.History.Keyed.{empty_IsKeyed, IsKeyed-IsStable}
use vk_agregator.Referrals.History.Once.{IsReferred-IsStable, IsSettled-IsStable, activate-settled}

mark-rewarded :
    (now : Time) (i : Uuid) (at : Time) (r : ReferralRepo)
    → (mark_reward_applied now i at r).0 ≡ ok tt
    → settled_row (lookup i (mark_reward_applied now i at r).1.referrals_by_id) ≡ true
unfolding mark_reward_applied
mark-rewarded now i at r went = elim (Option-cases (lookup i r.referrals_by_id)) [
  | inl missing ↦ absurd (ground (arith, missing, went))
  | inr (row, found) ↦
      ground (arith, found, lookup-insert_self i (rewarded_row now at row) r.referrals_by_id)
]

read_found :
    (user id : Uuid) (row : Referral) (r : ReferralRepo)
    → lookup user r.referred_to_id ≡ some id
    → lookup id r.referrals_by_id ≡ some row
    → get_referral_by_referred_user_id user r ≡ (ok row, r)
unfolding get_referral_by_referred_user_id
read_found user id row r known found = ground (arith, known, found)

abbrev IsRewardedAt : Uuid → Ledgers → Type 0
IsRewardedAt i b = settled_row (lookup i b.referrals.referrals_by_id) ≡ true

-- The last two steps of `applySignupRewards`.
abbrev finish : Visit → Referral → Referral → Action Ledgers Referral
finish v referral answer =
    on_referrals (mark_reward_applied v.stored referral.id v.rewarded_at) >> pure answer

finish-IsRewardedAt :
    (v : Visit) (referral answer row : Referral) (b : Ledgers)
    → (finish v referral answer b).0 ≡ ok row
    → IsRewardedAt referral.id (finish v referral answer b).1
finish-IsRewardedAt v referral answer row b went =
    let marks = on_referrals (mark_reward_applied v.stored referral.id v.rewarded_at) in
    let (_, fine, rest) = chain_ok marks (λ _. pure answer) b row went in
    subst (IsRewardedAt referral.id) (ap (λ t. t.1) (sym rest))
      (mark-rewarded v.stored referral.id v.rewarded_at b.referrals fine)

-- Whatever comes before them, the last two steps settle the referral.
then_finish-IsRewardedAt :
    (m : Action Ledgers (Unit {0})) (v : Visit) (referral answer row : Referral) (b : Ledgers)
    → ((m >> finish v referral answer) b).0 ≡ ok row
    → IsRewardedAt referral.id ((m >> finish v referral answer) b).1
then_finish-IsRewardedAt m v referral answer row b went =
    let (_, _, rest) = chain_ok m (λ _. finish v referral answer) b row went in
    subst (IsRewardedAt referral.id) (ap (λ t. t.1) (sym rest))
      (finish-IsRewardedAt v referral answer row (m b).1 (ap (λ t. t.0) (sym rest) ∙ went))

module _ (uuid_string : Uuid → String) (config : Config) where
  abbrev unbilled : Action Ledgers (Unit {0})
  unbilled =
      raise_if
        (reward_is_set config.referrer_signup_reward_credits
          || reward_is_set config.referred_signup_reward_credits)
        (other "referralservice: billing service is required for referral rewards")

  signup_none :
      (v : Visit) (referral : Referral) (b : Ledgers)
      → referral.id == nil_uuid ≡ false
      → apply_signup_rewards uuid_string config none v referral b
        ≡ (unbilled >> finish v referral referral) b
  unfolding apply_signup_rewards
  signup_none v referral b set = rw set refl

  signup_some :
      (s : Billing.Service) (v : Visit) (referral : Referral) (b : Ledgers)
      → referral.id == nil_uuid ≡ false
      → apply_signup_rewards uuid_string config (some s) v referral b
        ≡ (on_billing (grant_rewards uuid_string config (some s) s v referral)
              >> finish v referral (marked_rewarded uuid_string config (some s) v referral))
            b
  unfolding apply_signup_rewards
  signup_some s v referral b set = rw set refl

  signup-IsRewardedAt :
      (billing : Option Billing.Service) (v : Visit) (referral row : Referral) (b : Ledgers)
      → referral.id == nil_uuid ≡ false
      → (apply_signup_rewards uuid_string config billing v referral b).0 ≡ ok row
      → IsRewardedAt referral.id (apply_signup_rewards uuid_string config billing v referral b).1
  signup-IsRewardedAt none v referral row b set went =
      let goes = signup_none v referral b set in
      subst (λ t. IsRewardedAt referral.id t.1) (sym goes)
        (then_finish-IsRewardedAt unbilled v referral referral row b
          (ap (λ t. t.0) (sym goes) ∙ went))
  signup-IsRewardedAt (some s) v referral row b set went =
      let goes = signup_some s v referral b set in
      subst (λ t. IsRewardedAt referral.id t.1) (sym goes)
        (then_finish-IsRewardedAt
          (on_billing (grant_rewards uuid_string config (some s) s v referral)) v referral
          (marked_rewarded uuid_string config (some s) v referral) row b
          (ap (λ t. t.0) (sym goes) ∙ went))

  module _ (billing : Option Billing.Service) where
    abbrev rewarded_result : Bool → Referral → ActivateResult
    rewarded_result newly row = record not_activated {
      activated = newly;
      rewarded = true;
      referral = some row;
    }

    reward_on :
        (v : Visit) (newly : Bool) (referral : Referral) (b : Ledgers)
        → config.reward_on_activation ≡ true
        → reward uuid_string config billing v (newly, referral) b
          ≡ (apply_signup_rewards uuid_string config billing v referral >>= λ row.
                pure (rewarded_result newly row))
              b
    unfolding reward
    reward_on v newly referral b on = rw on refl

    reward_off :
        (v : Visit) (newly : Bool) (referral : Referral) (result : ActivateResult) (b : Ledgers)
        → config.reward_on_activation ≡ false
        → (reward uuid_string config billing v (newly, referral) b).0 ≡ ok result
        → result.rewarded ≡ false
    unfolding reward
    reward_off v newly referral result b off went = ground (arith, off, went)

    reward-IsRewardedAt :
        (v : Visit) (newly : Bool) (referral : Referral) (result : ActivateResult) (b : Ledgers)
        → referral.id == nil_uuid ≡ false
        → (reward uuid_string config billing v (newly, referral) b).0 ≡ ok result
        → result.rewarded ≡ true
        → IsRewardedAt referral.id (reward uuid_string config billing v (newly, referral) b).1
    reward-IsRewardedAt v newly referral result b set went paid =
        elim (Bool-cases config.reward_on_activation) [
          | inr off ↦ absurd (ground (arith, paid, reward_off v newly referral result b off went))
          | inl on ↦
              let goes = reward_on v newly referral b on in
              let signs = apply_signup_rewards uuid_string config billing v referral in
              let (row, fine, rest) =
                chain_ok signs (λ row. pure (rewarded_result newly row)) b result
                  (ap (λ t. t.0) (sym goes) ∙ went) in
              subst (λ t. IsRewardedAt referral.id t.1) (sym (goes ∙ rest))
                (signup-IsRewardedAt billing v referral row b set fine)
        ]

    mark_once-id :
        (v : Visit) (referral row : Referral) (newly : Bool) (b : Ledgers)
        → (mark_once uuid_string config billing v referral b).0 ≡ ok (newly, row)
        → row.id ≡ referral.id
    unfolding mark_once mark_activated
    mark_once-id v referral row newly b went = ground (arith, went)

    activate_open :
        (v : Visit) (referral : Referral) (b : Ledgers)
        → is_settled referral ≡ false
        → activate_referral uuid_string config billing v referral b
          ≡ (mark_once uuid_string config billing v referral
                >>= reward uuid_string config billing v)
              b
    unfolding activate_referral
    activate_open v referral b open_ = rw open_ refl

    activate_closed :
        (v : Visit) (referral : Referral) (result : ActivateResult) (b : Ledgers)
        → is_settled referral ≡ true
        → (activate_referral uuid_string config billing v referral b).0 ≡ ok result
        → result.rewarded ≡ false
    unfolding activate_referral
    activate_closed v referral result b closed went = ground (arith, closed, went)

    activate_referral-IsRewardedAt :
        (v : Visit) (referral : Referral) (result : ActivateResult) (b : Ledgers)
        → referral.id == nil_uuid ≡ false
        → (activate_referral uuid_string config billing v referral b).0 ≡ ok result
        → result.rewarded ≡ true
        → IsRewardedAt referral.id (activate_referral uuid_string config billing v referral b).1
    activate_referral-IsRewardedAt v referral result b set went paid =
        elim (Bool-cases (is_settled referral)) [
          | inl closed ↦
              absurd (ground (arith, paid, activate_closed v referral result b closed went))
          | inr open_ ↦
              let goes = activate_open v referral b open_ in
              let marks = mark_once uuid_string config billing v referral in
              let ((newly, row), fine, rest) =
                chain_ok marks (reward uuid_string config billing v) b result
                  (ap (λ t. t.0) (sym goes) ∙ went) in
              let same = mark_once-id v referral row newly b fine in
              subst (λ t. IsRewardedAt referral.id t.1) (sym (goes ∙ rest))
                (subst
                  (λ i.
                    IsRewardedAt i (reward uuid_string config billing v (newly, row) (marks b).1).1)
                  same
                  (reward-IsRewardedAt v newly row result (marks b).1
                    (subst (λ i. i == nil_uuid ≡ false) (sym same) set)
                    (ap (λ t. t.0) (sym rest) ∙ ap (λ t. t.0) (sym goes) ∙ went) paid))
        ]

    activate_found :
        (v : Visit) (user id : Uuid) (row : Referral) (b : Ledgers)
        → user == nil_uuid ≡ false
        → lookup user b.referrals.referred_to_id ≡ some id
        → lookup id b.referrals.referrals_by_id ≡ some row
        → activate uuid_string config billing v user b
          ≡ activate_referral uuid_string config billing v row b
    unfolding activate
    activate_found v user id row b set known found = rw set (
        chain-by (try (on_referrals (get_referral_by_referred_user_id user)))
          (λ answer. elim answer [
            | ok referral ↦ activate_referral uuid_string config billing v referral
            | err e ↦
                if is_not_found e then pure (record not_activated { not_found = true }) else raise e
          ])
          b
          (ap (λ x. (ok x.0, record b { referrals = x.1 }))
            (read_found user id row b.referrals known found)))

    -- An activation that rewards has found the referral that it rewards.
    activate_finds :
        (v : Visit) (user : Uuid) (result : ActivateResult) (b : Ledgers)
        → (activate uuid_string config billing v user b).0 ≡ ok result
        → result.rewarded ≡ true
        → (id : Uuid) × (row : Referral) × (lookup user b.referrals.referred_to_id ≡ some id)
          × (lookup id b.referrals.referrals_by_id ≡ some row)
          × (activate uuid_string config billing v user b
              ≡ activate_referral uuid_string config billing v row b)
    unfolding activate get_referral_by_referred_user_id
    activate_finds v user result b went paid = elim (Bool-cases (user == nil_uuid)) [
      | inl nobody ↦ absurd (ground (arith, nobody, went, paid))
      | inr set ↦ elim (Option-cases (lookup user b.referrals.referred_to_id)) [
        | inl missing ↦ absurd (ground (arith, set, missing, went, paid))
        | inr (id, known) ↦ elim (Option-cases (lookup id b.referrals.referrals_by_id)) [
          | inl lost ↦ absurd (ground (arith, set, known, lost, went, paid))
          | inr (row, found) ↦
              (id, row, known, found, activate_found v user id row b set known found)
        ]
      ]
    ]

    -- A reward is given once. Say that, from an empty repository of referrals on, after any history
    -- of code requests, invitations and activations, `Activate` has answered for a user that it gave
    -- the reward. Then, after any further history, `Activate` for that user changes nothing, in the
    -- ledger or elsewhere.
    pub activate-once :
        (v v' : Visit) (user : Uuid) (result : ActivateResult) (ledger : BillingRepo)
        (b t : Ledgers)
        → Steps uuid_string config billing
            (record { referrals = new_referral_repo; billing = ledger })
            b
        → (activate uuid_string config billing v user b).0 ≡ ok result
        → result.rewarded ≡ true
        → Steps uuid_string config billing (activate uuid_string config billing v user b).1 t
        → (activate uuid_string config billing v' user t).1 ≡ t
    activate-once v v' user result ledger b t before went paid history =
        let (id, row, known, found, goes) = activate_finds v user result b went paid in
        let keyed =
          steps-Preserves uuid_string config billing IsKeyed-IsStable before empty_IsKeyed id row
            found in
        let settled =
          subst (λ i. IsRewardedAt i (activate_referral uuid_string config billing v row b).1)
            keyed.0
            (activate_referral-IsRewardedAt v row result b
              (subst (λ i. i == nil_uuid ≡ false) (sym keyed.0) keyed.1)
              (ap (λ x. x.0) (sym goes) ∙ went) paid) in
        let referred =
          (activate-Preserves (IsReferred-IsStable user id) uuid_string config billing v user).kept
            b known in
        activate-settled uuid_string config billing v' user id t (
          steps-Preserves uuid_string config billing (IsSettled-IsStable user id) history
            (referred, subst (λ x. IsRewardedAt id x.1) (sym goes) settled))
