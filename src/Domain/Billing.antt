-- ===== src/Domain/Billing.antt =====
-- internal/domain/billing.go: credit accounts, the append-only ledger, and reservations.
use vk_agregator.Base.{ℕ, String, Bool, true, false, Option, Uuid}
use vk_agregator.Base.Int.{ℤ}

-- The unit of an account. Currencies are only joined into keys, so they stay texts.
abbrev pub Currency : Type 0
Currency = String

abbrev pub currency_credits : Currency
currency_credits = "credits"

pub data LedgerEntryType : Type 0 where
  topup reserve capture release refund adjustment : LedgerEntryType
  -- any other text
  other : String → LedgerEntryType

-- `LedgerEntryType.Valid`
unfoldable pub entry_type_valid : LedgerEntryType → Bool
entry_type_valid LedgerEntryType.topup = true
entry_type_valid LedgerEntryType.reserve = true
entry_type_valid LedgerEntryType.capture = true
entry_type_valid LedgerEntryType.release = true
entry_type_valid LedgerEntryType.refund = true
entry_type_valid LedgerEntryType.adjustment = true
entry_type_valid (LedgerEntryType.other s) = false

-- `unset` is the empty text, Go's zero value.
pub data LedgerEntryStatus : Type 0 where
  unset pending committed cancelled : LedgerEntryStatus

pub data ReservationStatus : Type 0 where
  unset reserved captured released expired : ReservationStatus

-- Times are counted in nanoseconds.
abbrev pub Time : Type 0
Time = ℕ

pub record CreditAccount : Type 0 where
  pub id : Uuid
  pub user_id : Uuid
  pub owner_account_id : Uuid
  pub currency : Currency
  pub balance_cached : ℤ
  pub created_at : Time
  pub updated_at : Time

pub record LedgerEntry : Type 0 where
  pub id : Uuid
  pub account_id : Uuid
  pub owner_account_id : Uuid
  pub job_id : Option Uuid
  pub reservation_id : Option Uuid
  pub entry_type : LedgerEntryType
  pub amount : ℤ
  pub status : LedgerEntryStatus
  pub idempotency_key : String
  pub reason : String
  pub created_at : Time

pub record CreditReservation : Type 0 where
  pub id : Uuid
  pub account_id : Uuid
  pub owner_account_id : Uuid
  pub job_id : Uuid
  pub amount : ℤ
  pub status : ReservationStatus
  pub idempotency_key : String
  pub expires_at : Time
  pub created_at : Time
  pub updated_at : Time

abbrev pub is_committed : LedgerEntryStatus → Bool
is_committed LedgerEntryStatus.committed = true
is_committed _ = false

abbrev pub is_reserved : ReservationStatus → Bool
is_reserved ReservationStatus.reserved = true
is_reserved _ = false

abbrev pub is_captured : ReservationStatus → Bool
is_captured ReservationStatus.captured = true
is_captured _ = false

-- The defaults for a status that the caller left empty.
abbrev pub or_committed : LedgerEntryStatus → LedgerEntryStatus
or_committed LedgerEntryStatus.unset = LedgerEntryStatus.committed
or_committed s = s

abbrev pub or_reserved : ReservationStatus → ReservationStatus
or_reserved ReservationStatus.unset = ReservationStatus.reserved
or_reserved s = s
