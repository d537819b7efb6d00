-- ===== src/Referrals/History/Keyed.antt =====
-- Referrals stand under their identifiers (adapter/storage/memory/referral.go).
use vk_agregator.Base.{
  ◌≡◌, refl, sym, ap, ◌∙◌, inl, inr, false, ◌⊎◌, some, Uuid, nil_uuid, arith, Bool-cases,
  Option-cases,
}
use vk_agregator.Base.Eq.{◌==◌, uuid_key, text_key}
use vk_agregator.Base.Dict.{lookup, insert, lookup-insert}
use vk_agregator.Domain.Billing.{Time}
use vk_agregator.Domain.Referral.{Referral, ReferralCode}
use vk_agregator.Referrals.Repo.{
  ReferralRepo, create_referral, create_code, mark_activated, mark_reward_applied, rewarded_row,
  activated_row, referral_row, new_referral_repo,
}
use vk_agregator.Referrals.Service.{ApplyInput, wanted_referral}
use vk_agregator.Referrals.Service.Stable.{IsStable}

-- Every referral stands under its identifier, which is not `uuid.Nil`.
abbrev pub IsKeyed : ReferralRepo → Type 0
IsKeyed r =
    (id : Uuid) (row : Referral)
    → lookup id r.referrals_by_id ≡ some row
    → (row.id ≡ id) × (id == nil_uuid ≡ false)

pub empty_IsKeyed : IsKeyed new_referral_repo
empty_IsKeyed id row found = absurd (ground (arith, found))

-- A row that is written under its own identifier.
insert-IsKeyed :
    (i : Uuid) (row : Referral) (r : ReferralRepo)
    → row.id ≡ i
    → i == nil_uuid ≡ false
    → IsKeyed r
    → IsKeyed (record r { referrals_by_id = insert i row r.referrals_by_id })
insert-IsKeyed i row r own set h id found_row found = elim (Bool-cases (i == id)) [
  | inl same ↦ ground (
    arith,
    own,
    set,
    found,
    same,
    lookup-insert i id row r.referrals_by_id,
    uuid_key.same_iff i id,
  )
  | inr apart ↦
      h id found_row (sym (lookup-insert i id row r.referrals_by_id ∙ rw apart refl) ∙ found)
]

-- What has the same referrals has them under their identifiers too.
same-IsKeyed : (r s : ReferralRepo) → s.referrals_by_id ≡ r.referrals_by_id → IsKeyed r → IsKeyed s
same-IsKeyed r s same h id row found = h id row (ap (λ m. lookup id m) (sym same) ∙ found)

create_referral-rows :
    (i : Uuid) (now : Time) (given : Referral) (r : ReferralRepo)
    → let rows = (create_referral i now given r).1.referrals_by_id in
      let row = referral_row i now given in
      (rows ≡ r.referrals_by_id) ⊎ (rows ≡ insert row.id row r.referrals_by_id)
unfolding create_referral
create_referral-rows i now given r = ground arith

activated-rows :
    (now : Time) (i : Uuid) (at : Time) (row : Referral) (r : ReferralRepo)
    → lookup i r.referrals_by_id ≡ some row
    → let rows = (mark_activated now i at r).1.referrals_by_id in
      (rows ≡ r.referrals_by_id) ⊎ (rows ≡ insert i (activated_row now at row) r.referrals_by_id)
unfolding mark_activated
activated-rows now i at row r found = ground (arith, found)

rewarded-rows :
    (now : Time) (i : Uuid) (at : Time) (row : Referral) (r : ReferralRepo)
    → lookup i r.referrals_by_id ≡ some row
    → (mark_reward_applied now i at r).1.referrals_by_id
      ≡ insert i (rewarded_row now at row) r.referrals_by_id
unfolding mark_reward_applied
rewarded-rows now i at row r found = ground (arith, found)

create_referral-IsKeyed :
    (i : Uuid) (now : Time) (code : ReferralCode) (input : ApplyInput) (r : ReferralRepo)
    → i == nil_uuid ≡ false
    → IsKeyed r
    → IsKeyed (create_referral i now (wanted_referral code input) r).1
create_referral-IsKeyed i now code input r set h =
    let given = wanted_referral code input in
    let row = referral_row i now given in
    let t = (create_referral i now given r).1 in
    elim (create_referral-rows i now given r) [
      | inl same ↦ same-IsKeyed r t same h
      | inr made ↦
          same-IsKeyed (record r { referrals_by_id = insert i row r.referrals_by_id }) t made
            (insert-IsKeyed i row r refl set h)
    ]

mark_activated-IsKeyed :
    (now : Time) (i : Uuid) (at : Time) (r : ReferralRepo)
    → IsKeyed r
    → IsKeyed (mark_activated now i at r).1
mark_activated-IsKeyed now i at r h = elim (Option-cases (lookup i r.referrals_by_id)) [
  | inl missing ↦
      same-IsKeyed r (mark_activated now i at r).1
        (unfold mark_activated in ground (arith, missing)) h
  | inr (row, found) ↦ elim (activated-rows now i at row r found) [
    | inl same ↦ same-IsKeyed r (mark_activated now i at r).1 same h
    | inr made ↦
        same-IsKeyed
          (record r { referrals_by_id = insert i (activated_row now at row) r.referrals_by_id })
          (mark_activated now i at r).1 made
          (insert-IsKeyed i (activated_row now at row) r (h i row found).0 (h i row found).1 h)
  ]
]

mark_reward-IsKeyed :
    (now : Time) (i : Uuid) (at : Time) (r : ReferralRepo)
    → IsKeyed r
    → IsKeyed (mark_reward_applied now i at r).1
mark_reward-IsKeyed now i at r h = elim (Option-cases (lookup i r.referrals_by_id)) [
  | inl missing ↦
      same-IsKeyed r (mark_reward_applied now i at r).1
        (unfold mark_reward_applied in ground (arith, missing)) h
  | inr (row, found) ↦
      same-IsKeyed
        (record r { referrals_by_id = insert i (rewarded_row now at row) r.referrals_by_id })
        (mark_reward_applied now i at r).1 (rewarded-rows now i at row r found)
        (insert-IsKeyed i (rewarded_row now at row) r (h i row found).0 (h i row found).1 h)
]

pub IsKeyed-IsStable : IsStable IsKeyed
IsKeyed-IsStable = record {
  codes = λ i now code. record {
    kept =
        λ r p. same-IsKeyed r (create_code i now code r).1 (unfold create_code in ground arith) p;
  };
  refers = λ i now code input r fresh set p. create_referral-IsKeyed i now code input r set p;
  marks = λ now i at. record { kept = mark_activated-IsKeyed now i at };
  rewards = λ now i at. record { kept = mark_reward-IsKeyed now i at };
}
