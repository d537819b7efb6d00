-- ===== src/Billing/Repo/Over.antt =====
-- A job whose hold is over (adapter/storage/memory/billing.go), and what keeps it so.
use vk_agregator.Base.{
  ◌≡◌, refl, ap, ◌∙◌, inl, inr, false, none, some, Bool, Option, Uuid, String, [], ◌∷◌, arith,
  Bool-cases,
}
use vk_agregator.Base.Eq.{◌==◌, uuid_key}
use vk_agregator.Base.Int.{ℤ}
use vk_agregator.Base.Dict.{Dict, lookup, insert}
use vk_agregator.Domain.Billing.{
  CreditAccount, CreditReservation, ReservationStatus, LedgerEntry, Time, is_reserved,
}
use vk_agregator.Billing.{Draw, or_uuid}
use vk_agregator.Billing.Repo.{
  BillingRepo, append_locked, append_entry, reserve, capture, release, create_account, hold_entry,
  placed, newest_of, consider,
}
use vk_agregator.Billing.Repo.ByJob.{WellKeyed, settled, map_some, newest_of-insert}
use vk_agregator.Billing.Repo.Solvent.{append_locked-reservations, reserve_cases, held_state}
use vk_agregator.Billing.Repo.Settle.{capture_cases, release_cases, given_up}
use vk_agregator.Billing.Repo.Keyed.{
  reserve-WellKeyed, capture-WellKeyed, release-WellKeyed, create_account-reservations,
}

abbrev pub is_held : Option CreditReservation → Bool
is_held none = false
is_held (some res) = is_reserved res.status

-- The newest hold of the job is captured, released or absent.
abbrev pub is_open : Uuid → Dict Uuid CreditReservation → Bool
is_open job m = is_held (newest_of job none m)

abbrev pub IsOver : Uuid → BillingRepo → Type 0
IsOver job r = WellKeyed r.reservations × (is_open job r.reservations ≡ false)

is_held-settled :
    (id : Uuid) (status : ReservationStatus) (now : Time) (best : Option CreditReservation)
    → is_reserved status ≡ false
    → is_held best ≡ false
    → is_held (map_some (settled id status now) best) ≡ false
unfolding settled
is_held-settled id status now none off h = refl
is_held-settled id status now (some res) off h = ground arith

given_up-is_open :
    (d : Draw) (job id : Uuid) (res : CreditReservation) (status : ReservationStatus)
    (e : LedgerEntry) (r : BillingRepo)
    → lookup id r.reservations ≡ some res
    → is_reserved status ≡ false
    → IsOver job r
    → is_open job (append_locked d e (given_up d id res status r)).1.reservations ≡ false
given_up-is_open d job id res status e r found off o =
    ap (λ m. is_open job m) (append_locked-reservations d e (given_up d id res status r))
    ∙ ap is_held (newest_of-insert id status d.now job res r.reservations o.0 found)
    ∙ is_held-settled id status d.now (newest_of job none r.reservations) off o.1

capture-IsOver :
    (d : Draw) (job id : Uuid) (amount : ℤ) (key : String) (r : BillingRepo)
    → IsOver job r
    → IsOver job (capture d id amount key r).1
capture-IsOver d job id amount key r o = elim (capture_cases d id r amount key) [
  | inl (x, same) ↦ rw same o
  | inr (res, found, active, moved) ↦ (
    capture-WellKeyed d id amount key r o.0,
    rw moved (given_up-is_open d job id res ReservationStatus.captured _ r found refl o),
  )
]

pub release-IsOver :
    (d : Draw) (job id : Uuid) (key : String) (r : BillingRepo)
    → IsOver job r
    → IsOver job (release d id key r).1
release-IsOver d job id key r o = elim (release_cases d id r key) [
  | inl (x, same) ↦ rw same o
  | inr (res, found, active, moved) ↦ (
    release-WellKeyed d id key r o.0,
    rw moved (given_up-is_open d job id res ReservationStatus.released _ r found refl o),
  )
]

-- A row of another job, under an identifier that is free, is not what the job finds.
newest_of-insert_other :
    (job id : Uuid) (best : Option CreditReservation) (res : CreditReservation)
    (m : Dict Uuid CreditReservation)
    → lookup id m ≡ none
    → res.job_id == job ≡ false
    → newest_of job best (insert id res m) ≡ newest_of job best m
unfolding consider
newest_of-insert_other job id best res [] free away = rw away
newest_of-insert_other job id best res (x ∷ m) free away = elim (Bool-cases (x.0 == id)) [
  | inl hit ↦ ground arith
  | inr miss ↦
      rw miss (newest_of-insert_other job id (consider job best x.1) res m (ground arith) away)
]

reserve-IsOver :
    (d : Draw) (job : Uuid) (res : CreditReservation) (r : BillingRepo)
    → lookup (or_uuid res.id d.id) r.reservations ≡ none
    → res.job_id == job ≡ false
    → IsOver job r
    → IsOver job (reserve d res r).1
unfolding placed
reserve-IsOver d job res r free away o = elim (reserve_cases res.account_id d res r) [
  | inl same ↦ rw same o
  | inr (enough, moved) ↦ (
    reserve-WellKeyed d res r o.0,
    rw moved (
        ap (λ m. is_open job m)
          (append_locked-reservations d (hold_entry (placed d res r))
            (held_state res.account_id d res r))
        ∙ ap is_held (
            newest_of-insert_other job (or_uuid res.id d.id) none (placed d res r) r.reservations
              free away)
        ∙ o.1),
  )
]

module _ (uuid_string : Uuid → String) (job : Uuid) where
  -- Any calls in any order, failed ones too, but none that makes a new hold for the job. Holds for
  -- other jobs take free identifiers.
  pub data Later (r : BillingRepo) : BillingRepo → Type 0 where
    at_once : Later r r
    creates :
        {s : BillingRepo} (d : Draw) (a : CreditAccount)
        → Later r s
        → Later r (create_account uuid_string d a s).1
    appends :
        {s : BillingRepo} (d : Draw) (e : LedgerEntry) → Later r s → Later r (append_entry d e s).1
    reserves :
        {s : BillingRepo} (d : Draw) (res : CreditReservation)
        → lookup (or_uuid res.id d.id) s.reservations ≡ none
        → res.job_id == job ≡ false
        → Later r s
        → Later r (reserve d res s).1
    captures :
        {s : BillingRepo} (d : Draw) (id : Uuid) (amount : ℤ) (key : String)
        → Later r s
        → Later r (capture d id amount key s).1
    releases :
        {s : BillingRepo} (d : Draw) (id : Uuid) (key : String)
        → Later r s
        → Later r (release d id key s).1

  pub Later-IsOver : {r s : BillingRepo} → Later r s → IsOver job r → IsOver job s
  unfolding append_entry
  Later-IsOver at_once o = o
  Later-IsOver (creates {s} d a h) o =
      rw (create_account-reservations uuid_string d a s) (Later-IsOver h o)
  Later-IsOver (appends {s} d e h) o = rw (append_locked-reservations d e s) (Later-IsOver h o)
  Later-IsOver (reserves {s} d res free away h) o =
      reserve-IsOver d job res s free away (Later-IsOver h o)
  Later-IsOver (captures {s} d id amount key h) o =
      capture-IsOver d job id amount key s (Later-IsOver h o)
  Later-IsOver (releases {s} d id key h) o = release-IsOver d job id key s (Later-IsOver h o)
