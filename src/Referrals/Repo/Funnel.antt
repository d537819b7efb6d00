-- ===== src/Referrals/Repo/Funnel.antt =====
-- adapter/storage/memory/referral.go: how many invitations have come how far.
use vk_agregator.Base.{
  ℕ, suc, String, Bool, not, ◌&&◌, ◌||◌, Option, none, some, List, [], ◌∷◌, map, Uuid, nat_beq, ltb,
  if◌then◌else◌,
}
use vk_agregator.Base.Eq.{◌==◌, uuid_key, text_key}
use vk_agregator.Base.Int.{ℤ, pos, negsuc, ltb_ℤ, leb_ℤ}
use vk_agregator.Base.Lists.{length, take, retain, sort_by}
use vk_agregator.Base.Text.{text_before}
use vk_agregator.Base.Dict.{Dict, lookup, lookup_or, values, contains}
use vk_agregator.Base.Action.{Action, not_found, gets, raise_if, ◌>>=◌, ◌>>◌}
use vk_agregator.Domain.Referral.{
  Referral, ReferralStats, ReferralCodeStats, ReferralSuspiciousFilter, ReferralStatus, stats_total,
  is_applied,
}
use vk_agregator.Referrals.Repo.{ReferralRepo}

abbrev pub no_stats : ReferralStats
no_stats = record { registered_count = 0; activated_count = 0; rewarded_count = 0 }

-- A referral that is missing counts as Go's zero value.
unfoldable pub add_referral_status : Option Referral → ReferralStats → ReferralStats
add_referral_status none s = record s { registered_count = suc s.registered_count }
add_referral_status (some referral) s = elim referral.status [
  | ReferralStatus.rewarded ↦ record s { rewarded_count = suc s.rewarded_count }
  | ReferralStatus.activated ↦ record s { activated_count = suc s.activated_count }
  | _ ↦
      if is_applied referral.reward_status
      then record s { rewarded_count = suc s.rewarded_count }
      else record s { registered_count = suc s.registered_count }
]

abbrev pub add_ids : Dict Uuid Referral → List Uuid → ReferralStats → ReferralStats
add_ids rows [] s = s
add_ids rows (id ∷ ids) s = add_ids rows ids (add_referral_status (lookup id rows) s)

abbrev add_rows : List Referral → ReferralStats → ReferralStats
add_rows [] s = s
add_rows (row ∷ rows) s = add_rows rows (add_referral_status (some row) s)

unfoldable pub count_by_referrer : Uuid → Action ReferralRepo ℕ
count_by_referrer referrer = gets λ r. length (lookup_or [] referrer r.referrer_to_refs)

unfoldable pub count_by_referrer_status : Uuid → Action ReferralRepo ReferralStats
count_by_referrer_status referrer =
    gets λ r. add_ids r.referrals_by_id (lookup_or [] referrer r.referrer_to_refs) no_stats

unfoldable pub stats_by_code_locked : String → ReferralRepo → ReferralStats
stats_by_code_locked code r =
    add_rows (retain (λ row. row.referral_code == code) (values r.referrals_by_id)) no_stats

unfoldable pub stats_by_referral_code : String → Action ReferralRepo ReferralCodeStats
unfolding stats_by_code_locked
stats_by_referral_code code = do
  raise_if (← gets λ r. not (contains code r.codes_by_value)) not_found
  gets λ r. record { code = code; stats = stats_by_code_locked code r }

unfoldable pub referral_status_distribution : Action ReferralRepo ReferralStats
referral_status_distribution = gets λ r. add_rows (values r.referrals_by_id) no_stats

abbrev reaches : ℤ → ℕ → Bool
reaches bound n = ltb_ℤ (pos 0) bound && leb_ℤ bound (pos n)

abbrev suspicious : ReferralSuspiciousFilter → ReferralCodeStats → Bool
suspicious f c =
    not (nat_beq (stats_total c.stats) 0)
    && (reaches f.min_registered c.stats.registered_count
        || reaches f.min_total (stats_total c.stats))

-- The most used codes first.
abbrev more_used : ReferralCodeStats → ReferralCodeStats → Bool
more_used a b =
    if not (nat_beq (stats_total a.stats) (stats_total b.stats))
    then ltb (stats_total b.stats) (stats_total a.stats)
    else if not (nat_beq a.stats.registered_count b.stats.registered_count)
    then ltb b.stats.registered_count a.stats.registered_count
    else text_before a.code b.code

-- `if filter.Limit <= 0 { filter.Limit = 20 }`
abbrev or_twenty : ℤ → ℕ
or_twenty (pos n) = if nat_beq n 0 then 20 else n
or_twenty (negsuc n) = 20

abbrev coded_stats : ReferralRepo → String × Uuid → ReferralCodeStats
coded_stats r entry = record { code = entry.0; stats = stats_by_code_locked entry.0 r }

unfoldable pub list_suspicious_referral_codes :
    ReferralSuspiciousFilter → Action ReferralRepo (List ReferralCodeStats)
unfolding stats_by_code_locked
list_suspicious_referral_codes f = gets λ r.
    take (or_twenty f.limit)
      (sort_by more_used (retain (suspicious f) (map (coded_stats r) r.codes_by_value)))
