-- ===== src/Billing/Service.antt =====
-- service/billingservice: prices, and the life of a reservation, over the ledger repository. Each
-- method takes the draws of the repository calls that it makes, in their order.
pub mod Idempotent
pub mod Released
pub mod Grants
pub mod Granted
pub mod Lasting
pub mod Refunds
pub mod Reserved
mod Tests
use vk_agregator.Base.{
  ℕ, ◌+◌, ◌*◌, String, Bool, true, false, not, ◌&&◌, ◌||◌, Option, none, some, [], ◌∷◌, Uuid,
  nil_uuid, if◌then◌else◌,
}
use vk_agregator.Base.Eq.{◌==◌, text_key, uuid_key}
use vk_agregator.Base.Int.{ℤ, pos, leb_ℤ, ltb_ℤ, int_beq}
use vk_agregator.Base.Dict.{Dict, lookup}
use vk_agregator.Base.Action.{
  Action, Result, ok, err, Error, unknown_operation, invalid_amount, other, is_not_found,
  is_conflict, pure, raise, raise_if, try, ◌>>=◌, ◌>>◌,
}
use vk_agregator.Domain.Billing.{
  Currency, currency_credits, LedgerEntryType, LedgerEntryStatus, ReservationStatus, Time,
  CreditAccount, LedgerEntry, CreditReservation, is_reserved, is_captured,
}
use vk_agregator.Domain.Job.{
  OperationType, text_generate, image_generate, image_edit, video_generate, video_image_to_video,
  operation_beq, operation_key,
}
use vk_agregator.Billing.{Draw, or_uuid, resv_key, cap_key, rel_key, refund_key}
use vk_agregator.Billing.Repo
use vk_agregator.Billing.Repo.{BillingRepo}

-- 30 minutes, in nanoseconds.
abbrev pub default_reservation_ttl : Time
default_reservation_ttl = 30 * 60 * 1_000_000_000

abbrev pub default_starting_balance : ℤ
default_starting_balance = pos 30

abbrev pub default_prices : Dict OperationType ℤ
default_prices =
    (text_generate, pos 0)
    ∷ (image_generate, pos 10)
    ∷ (image_edit, pos 10)
    ∷ (video_generate, pos 50)
    ∷ (video_image_to_video, pos 50)
    ∷ []

pub record Service : Type 0 where
  pub prices : Dict OperationType ℤ
  pub starting_balance : ℤ
  pub currency : Currency
  pub reservation_ttl : Time

-- `New` with no option.
abbrev pub new_service : Service
new_service = record {
  prices = default_prices;
  starting_balance = default_starting_balance;
  currency = currency_credits;
  reservation_ttl = default_reservation_ttl;
}

unfoldable pub estimate : Service → OperationType → Result ℤ
estimate s op = elim (lookup op s.prices) [
  | none ↦ err unknown_operation
  | some price ↦
      if ltb_ℤ price (pos 0) || (int_beq price (pos 0) && not (operation_beq op text_generate))
      then err invalid_amount
      else ok price
]

abbrev pub account_owner_id : Uuid → Uuid → Uuid
account_owner_id user account = or_uuid account user

abbrev pub credit_account_owner_id : CreditAccount → Uuid → Uuid
credit_account_owner_id a fallback = or_uuid a.owner_account_id fallback

-- `if errors.Is(err, domain.ErrConflict) { return nil }`
abbrev pub forgive_conflict : Action BillingRepo (Unit {0}) → Action BillingRepo (Unit {0})
forgive_conflict m = do
  done ← try m
  elim done [ ok u ↦ pure u | err e ↦ if is_conflict e then pure tt else raise e ]

module _ (uuid_string : Uuid → String) (s : Service) where
  unfoldable pub balance_for_estimate : Uuid → Action BillingRepo ℤ
  balance_for_estimate owner = do
    found ← try (Repo.get_account_by_user uuid_string owner s.currency)
    elim found [
      | ok a ↦ pure a.balance_cached
      | err e ↦ if is_not_found e then pure s.starting_balance else raise e
    ]

  -- The row that `ensureAccountWith` asks for.
  abbrev pub new_account : Uuid → Uuid → CreditAccount
  new_account user account = record {
    id = nil_uuid;
    user_id = user;
    owner_account_id = account;
    currency = s.currency;
    balance_cached = s.starting_balance;
    created_at = 0;
    updated_at = 0;
  }

  -- A creation that loses a race reads the row of the winner.
  unfoldable pub create_or_read : Draw → Uuid → Uuid → Action BillingRepo CreditAccount
  create_or_read d user account = do
    made ← try (Repo.create_account uuid_string d (new_account user account))
    elim made [
      | ok a ↦ pure a
      | err e ↦
          if is_conflict e
          then Repo.get_account_by_user uuid_string (account_owner_id user account) s.currency
          else raise e
    ]

  unfoldable pub ensure_account_with : Draw → Uuid → Uuid → Action BillingRepo CreditAccount
  unfolding create_or_read
  ensure_account_with d user account = do
    let owner = account_owner_id user account
    found ← try (Repo.get_account_by_user uuid_string owner s.currency)
    elim found [
      | ok a ↦ pure (record a { owner_account_id = or_uuid a.owner_account_id owner })
      | err e ↦ if is_not_found e then create_or_read d user account else raise e
    ]

  abbrev pub new_hold : Draw → CreditAccount → Uuid → Uuid → ℤ → CreditReservation
  new_hold d a owner job amount = record {
    id = nil_uuid;
    account_id = a.id;
    owner_account_id = credit_account_owner_id a owner;
    job_id = job;
    amount = amount;
    status = ReservationStatus.reserved;
    idempotency_key = resv_key uuid_string job;
    expires_at = d.now + s.reservation_ttl;
    created_at = 0;
    updated_at = 0;
  }

  unfoldable pub reserve_with_owner :
      Draw → Draw → Uuid → Uuid → Uuid → ℤ → Action BillingRepo CreditReservation
  reserve_with_owner d d' user account job amount = do
    raise_if (leb_ℤ amount (pos 0)) invalid_amount
    a ← ensure_account_with d user account
    Repo.reserve d' (new_hold d' a (account_owner_id user account) job amount)

  -- `Capture`
  unfoldable pub capture_reservation : Draw → Uuid → ℤ → Action BillingRepo (Unit {0})
  capture_reservation d reservation amount = do
    raise_if (leb_ℤ amount (pos 0)) invalid_amount
    Repo.capture d reservation amount (cap_key uuid_string reservation)

  unfoldable pub capture_for_job : Draw → Uuid → ℤ → Action BillingRepo (Unit {0})
  capture_for_job d job amount = do
    raise_if (leb_ℤ amount (pos 0)) invalid_amount
    res ← Repo.get_reservation_by_job job
    if is_captured res.status
        then pure tt
        else forgive_conflict (Repo.capture d res.id amount (cap_key uuid_string res.id))

  -- `Release`
  unfoldable pub release_reservation : Draw → Uuid → Action BillingRepo (Unit {0})
  release_reservation d reservation = Repo.release d reservation (rel_key uuid_string reservation)

  unfoldable pub release_for_job : Draw → Uuid → Action BillingRepo (Unit {0})
  release_for_job d job = do
    found ← try (Repo.get_reservation_by_job job)
    elim found [
      | ok res ↦
          if is_reserved res.status
          then forgive_conflict (Repo.release d res.id (rel_key uuid_string res.id))
          else pure tt
      | err e ↦ if is_not_found e then pure tt else raise e
    ]

  abbrev pub credit_entry :
      CreditAccount → Uuid → Option Uuid → LedgerEntryType → ℤ → String → String → LedgerEntry
  credit_entry a owner job kind amount key reason = record {
    id = nil_uuid;
    account_id = a.id;
    owner_account_id = credit_account_owner_id a owner;
    job_id = job;
    reservation_id = none;
    entry_type = kind;
    amount = amount;
    status = LedgerEntryStatus.committed;
    idempotency_key = key;
    reason = reason;
    created_at = 0;
  }

  unfoldable pub refund_for_owner :
      Draw → Draw → Uuid → Uuid → Uuid → ℤ → Action BillingRepo (Unit {0})
  refund_for_owner d d' user account job amount = do
    a ← ensure_account_with d user account
    Repo.append_entry d' (
        credit_entry a (account_owner_id user account) (some job) LedgerEntryType.refund amount
          (refund_key uuid_string job) "job refund")

  unfoldable pub grant_with_owner :
      Draw → Draw → Uuid → Uuid → ℤ → String → String → Action BillingRepo (Unit {0})
  grant_with_owner d d' user account amount key reason =
      if leb_ℤ amount (pos 0) then pure tt else do
        raise_if (key == "") (other "billingservice: grant idempotency key is required")
        a ← ensure_account_with d user account
        forgive_conflict (
            Repo.append_entry d' (
              credit_entry a (account_owner_id user account) none LedgerEntryType.topup amount key
                reason))

  -- The calls that name no canonical account, or use the service's own repository.
  unfoldable pub ensure_account : Draw → Uuid → Action BillingRepo CreditAccount
  ensure_account d user = ensure_account_with d user nil_uuid

  unfoldable pub reserve_with : Draw → Draw → Uuid → Uuid → ℤ → Action BillingRepo CreditReservation
  reserve_with d d' user job amount = reserve_with_owner d d' user nil_uuid job amount

  unfoldable pub refund : Draw → Draw → Uuid → Uuid → ℤ → Action BillingRepo (Unit {0})
  refund d d' user job amount = refund_for_owner d d' user nil_uuid job amount

  unfoldable pub grant_with :
      Draw → Draw → Uuid → ℤ → String → String → Action BillingRepo (Unit {0})
  grant_with d d' user amount key reason = grant_with_owner d d' user nil_uuid amount key reason
