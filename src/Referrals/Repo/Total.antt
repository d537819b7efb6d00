-- ===== src/Referrals/Repo/Total.antt =====
-- The counters of the funnel (adapter/storage/memory/referral.go) and the number of invitations.
use vk_agregator.Base.{
  ℕ, suc, ◌+◌, Option, none, some, List, [], ◌∷◌, Uuid, ◌≡◌, refl, sym, ap, ◌∙◌, arith,
}
use vk_agregator.Base.Eq.{uuid_key}
use vk_agregator.Base.Lists.{length}
use vk_agregator.Base.Dict.{Dict, lookup, lookup_or}
use vk_agregator.Base.Action.{ok, ok_injective}
use vk_agregator.Domain.Referral.{Referral, ReferralStats, stats_total}
use vk_agregator.Referrals.Repo.{ReferralRepo}
use vk_agregator.Referrals.Repo.Funnel.{
  no_stats, add_referral_status, add_ids, count_by_referrer, count_by_referrer_status,
}

add-total :
    (row : Option Referral) (s : ReferralStats)
    → stats_total (add_referral_status row s) ≡ suc (stats_total s)
unfolding add_referral_status stats_total
add-total none s = omega arith
add-total (some row) s = ground arith

add_ids-total :
    (rows : Dict Uuid Referral) (ids : List Uuid) (s : ReferralStats)
    → stats_total (add_ids rows ids s) ≡ length ids + stats_total s
add_ids-total rows [] s = omega arith
add_ids-total rows (id ∷ ids) s =
    add_ids-total rows ids (add_referral_status (lookup id rows) s)
    ∙ omega (arith, add-total (lookup id rows) s)

none_counted : stats_total no_stats ≡ 0
unfolding stats_total
none_counted = refl

-- No invitation is lost from the funnel: the counters that `CountByReferrerStatus` answers with add
-- up to the number that `CountByReferrer` answers with, on every repository.
pub count_by_referrer-total :
    (referrer : Uuid) (r : ReferralRepo) (n : ℕ) (s : ReferralStats)
    → (count_by_referrer referrer r).0 ≡ ok n
    → (count_by_referrer_status referrer r).0 ≡ ok s
    → stats_total s ≡ n
unfolding count_by_referrer count_by_referrer_status
count_by_referrer-total referrer r n s counted told =
    let refs = lookup_or [] referrer r.referrer_to_refs in
    ap stats_total (ok_injective (sym told))
    ∙ add_ids-total r.referrals_by_id refs no_stats
    ∙ omega (arith, none_counted, ok_injective counted)
