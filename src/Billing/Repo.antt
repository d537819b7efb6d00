-- ===== src/Billing/Repo.antt =====
-- adapter/storage/memory/billing.go: `BillingRepo`, method by method. Each method holds the mutex
-- from start to end, so it is one step on the state.
pub mod Balance
pub mod Reach
pub mod Holds
pub mod Solvent
pub mod Settle
pub mod Spending
pub mod History
pub mod Effects
pub mod ByJob
pub mod Keyed
pub mod Over
use vk_agregator.Base.{
  ℕ, String, Bool, true, false, not, ◌&&◌, Option, none, some, List, [], ◌∷◌, ◌++◌, Uuid, nil_uuid,
  if◌then◌else◌, ltb,
}
use mathlib.Core.List.{reverse}
use vk_agregator.Base.Lists.{take, drop, retain}
use vk_agregator.Base.Eq.{◌==◌, uuid_key, text_key}
use vk_agregator.Base.Int.{ℤ, pos, ltb_ℤ, int_beq}
use vk_agregator.Base.Int64.{◌+₆₄◌, ◌-₆₄◌, neg64}
use vk_agregator.Base.Dict.{Dict, lookup, insert, contains, lookup_or}
use vk_agregator.Base.Action.{
  Action, Result, ok, err, Error, not_found, conflict, insufficient_credits, pure, raise, or_raise,
  gets, modify, raise_if, ◌>>=◌, ◌>>◌,
}
use vk_agregator.Domain.Billing.{
  Currency, LedgerEntryType, LedgerEntryStatus, ReservationStatus, Time, CreditAccount, LedgerEntry,
  CreditReservation, is_committed, is_reserved, or_committed, or_reserved,
}
use vk_agregator.Billing.Keys.{user_currency_key, grant_open_key, reserve_entry_key}
use vk_agregator.Billing.Draws.{Draw, or_uuid}

pub record BillingRepo : Type 0 where
  pub accounts : Dict Uuid CreditAccount
  pub by_user : Dict String Uuid
  pub claimed_users : Dict String Bool
  pub reservations : Dict Uuid CreditReservation
  pub ledger : List LedgerEntry
  pub ledger_keys : Dict String Bool
  pub res_keys : Dict String Bool

abbrev pub new_billing_repo : BillingRepo
new_billing_repo = record {
  accounts = [];
  by_user = [];
  claimed_users = [];
  reservations = [];
  ledger = [];
  ledger_keys = [];
  res_keys = [];
}

-- The zero value that Go's map gives for a missing account.
abbrev pub zero_account : CreditAccount
zero_account = record {
  id = nil_uuid;
  user_id = nil_uuid;
  owner_account_id = nil_uuid;
  currency = "";
  balance_cached = pos 0;
  created_at = 0;
  updated_at = 0;
}

abbrev pub account_at : Uuid → BillingRepo → CreditAccount
account_at id r = lookup_or zero_account id r.accounts

abbrev pub balance : Uuid → BillingRepo → ℤ
balance id r = (account_at id r).balance_cached

-- What `appendLocked` fills in before it stores an entry.
unfoldable pub completed : Draw → LedgerEntry → BillingRepo → LedgerEntry
completed d e r = record e {
  id = or_uuid e.id d.entry_id;
  status = or_committed e.status;
  owner_account_id = or_uuid e.owner_account_id (elim (lookup e.account_id r.accounts) [
    | none ↦ e.owner_account_id
    | some a ↦ a.owner_account_id
  ]);
  created_at = d.now;
}

unfoldable pub credited : Draw → LedgerEntry → BillingRepo → Dict Uuid CreditAccount
credited d e r =
    if is_committed e.status && not (int_beq e.amount (pos 0))
    then insert e.account_id
        (record a { balance_cached = a.balance_cached +₆₄ e.amount; updated_at = d.now }) r.accounts
    else r.accounts
  where
    a : CreditAccount
    a = account_at e.account_id r

unfoldable pub append_locked : Draw → LedgerEntry → Action BillingRepo (Unit {0})
unfolding completed credited
append_locked d e r =
    if lookup_or false e.idempotency_key r.ledger_keys then (err conflict, r) else (
      ok tt,
      record r {
        ledger = r.ledger ++ completed d e r ∷ [];
        ledger_keys = insert e.idempotency_key true r.ledger_keys;
        accounts = credited d (completed d e r) r;
      },
    )

unfoldable pub append_entry : Draw → LedgerEntry → Action BillingRepo (Unit {0})
append_entry d e = append_locked d e

unfoldable pub get_account : Uuid → Action BillingRepo CreditAccount
get_account id = do or_raise (← gets λ r. lookup id r.accounts) not_found

-- The sum that `availableLocked` takes off the balance, hold by hold.
abbrev pub less_held : Uuid → ℤ → Dict Uuid CreditReservation → ℤ
less_held account avail [] = avail
less_held account avail ((_, res) ∷ rest) =
    less_held account
      (if res.account_id == account && is_reserved res.status then avail -₆₄ res.amount else avail)
      rest

unfoldable pub available_locked : Uuid → BillingRepo → ℤ
available_locked account r = less_held account (balance account r) r.reservations

-- The entry that records a hold, pending so that it does not count toward the balance.
abbrev pub hold_entry : CreditReservation → LedgerEntry
hold_entry res = record {
  id = nil_uuid;
  account_id = res.account_id;
  owner_account_id = res.owner_account_id;
  job_id = some res.job_id;
  reservation_id = some res.id;
  entry_type = LedgerEntryType.reserve;
  amount = neg64 res.amount;
  status = LedgerEntryStatus.pending;
  idempotency_key = reserve_entry_key res.idempotency_key;
  reason = "credit reservation";
  created_at = 0;
}

-- `res` as it is stored, and as the caller sees it afterwards.
unfoldable pub placed : Draw → CreditReservation → BillingRepo → CreditReservation
placed d res r = record res {
  owner_account_id = or_uuid res.owner_account_id (account_at res.account_id r).owner_account_id;
  id = or_uuid res.id d.id;
  status = or_reserved res.status;
  created_at = d.now;
  updated_at = d.now;
}

abbrev pub store_reservation : CreditReservation → BillingRepo → BillingRepo
store_reservation res r = record r { reservations = insert res.id res r.reservations }

abbrev pub claim_key : String → BillingRepo → BillingRepo
claim_key key r = record r { res_keys = insert key true r.res_keys }

unfoldable pub reserve : Draw → CreditReservation → Action BillingRepo CreditReservation
unfolding placed available_locked
reserve d res = do
  raise_if (← gets λ r. lookup_or false res.idempotency_key r.res_keys) conflict
  or_raise (← gets λ r. lookup res.account_id r.accounts) not_found
  raise_if (← gets λ r. ltb_ℤ (available_locked res.account_id r) res.amount) insufficient_credits
  res' ← gets (placed d res)
  modify λ r. claim_key res.idempotency_key (store_reservation res' r)
  append_locked d (hold_entry res')
  pure res'

abbrev pub settle_entry : CreditReservation → LedgerEntryType → ℤ → String → String → LedgerEntry
settle_entry res kind amount key reason = record {
  id = nil_uuid;
  account_id = res.account_id;
  owner_account_id = res.owner_account_id;
  job_id = some res.job_id;
  reservation_id = some res.id;
  entry_type = kind;
  amount = amount;
  status = LedgerEntryStatus.committed;
  idempotency_key = key;
  reason = reason;
  created_at = 0;
}

unfoldable pub capture : Draw → Uuid → ℤ → String → Action BillingRepo (Unit {0})
capture d reservation amount key = do
  res ← or_raise (← gets λ r. lookup reservation r.reservations) not_found
  raise_if (not (is_reserved res.status)) conflict
  let res' = record res { status = ReservationStatus.captured; updated_at = d.now }
  modify λ r. record r { reservations = insert reservation res' r.reservations }
  append_locked d (settle_entry res LedgerEntryType.capture (neg64 amount) key "credit capture")

unfoldable pub release : Draw → Uuid → String → Action BillingRepo (Unit {0})
release d reservation key = do
  res ← or_raise (← gets λ r. lookup reservation r.reservations) not_found
  raise_if (not (is_reserved res.status)) conflict
  let res' = record res { status = ReservationStatus.released; updated_at = d.now }
  modify λ r. record r { reservations = insert reservation res' r.reservations }
  append_locked d (settle_entry res LedgerEntryType.release (pos 0) key "credit release")

unfoldable pub get_reservation : Uuid → Action BillingRepo CreditReservation
get_reservation id = do or_raise (← gets λ r. lookup id r.reservations) not_found

-- `!found || res.CreatedAt.After(latest.CreatedAt)`
abbrev pub newer : Option CreditReservation → CreditReservation → Option CreditReservation
newer none res = some res
newer (some best) res = if ltb best.created_at res.created_at then some res else some best

unfoldable pub consider :
    Uuid → Option CreditReservation → CreditReservation → Option CreditReservation
consider job best res = if res.job_id == job then newer best res else best

-- The newest reservation of a job; of two as new, the one that the walk meets first. (Go walks a
-- map in any order, and this walk is one of them.)
abbrev pub newest_of :
    Uuid → Option CreditReservation → Dict Uuid CreditReservation → Option CreditReservation
newest_of job best [] = best
newest_of job best ((_, res) ∷ rest) = newest_of job (consider job best res) rest

unfoldable pub get_reservation_by_job : Uuid → Action BillingRepo CreditReservation
get_reservation_by_job job = do or_raise (← gets λ r. newest_of job none r.reservations) not_found

-- `ListEntries`: the account's entries, newest first, one page of them.
unfoldable pub list_entries : Uuid → ℕ → ℕ → Action BillingRepo (List LedgerEntry)
list_entries account limit offset =
    gets λ r. take limit (drop offset (retain (λ e. e.account_id == account) (reverse r.ledger)))

-- `a` as it is stored at first: with no credits, whatever balance was asked for.
unfoldable pub opened : Draw → CreditAccount → CreditAccount
opened d a = record a {
  owner_account_id = or_uuid a.owner_account_id a.user_id;
  id = or_uuid a.id d.id;
  created_at = d.now;
  updated_at = d.now;
  balance_cached = pos 0;
}

module _ (uuid_string : Uuid → String) where
  abbrev pub key_of_user : CreditAccount → String
  key_of_user a = user_currency_key uuid_string a.user_id a.currency

  abbrev pub key_of_owner : CreditAccount → String
  key_of_owner a = user_currency_key uuid_string a.owner_account_id a.currency

  abbrev pub store_account : CreditAccount → BillingRepo → BillingRepo
  store_account a r = record r {
    accounts = insert a.id a r.accounts;
    claimed_users = insert (key_of_owner a) true (insert (key_of_user a) true r.claimed_users);
    by_user = insert (key_of_owner a) a.id r.by_user;
  }

  abbrev pub opening_entry : CreditAccount → ℤ → LedgerEntry
  opening_entry a grant = record {
    id = nil_uuid;
    account_id = a.id;
    owner_account_id = a.owner_account_id;
    job_id = none;
    reservation_id = none;
    entry_type = LedgerEntryType.topup;
    amount = grant;
    status = LedgerEntryStatus.committed;
    idempotency_key = grant_open_key uuid_string a.id;
    reason = "opening balance grant";
    created_at = 0;
  }

  -- The opening grant, and the account as the caller sees it afterwards.
  unfoldable pub grant_opening : Draw → CreditAccount → ℤ → Action BillingRepo CreditAccount
  grant_opening d a grant = do
    append_locked d (opening_entry a grant)
    gets λ r. record a { balance_cached = balance a.id r }

  unfoldable pub create_account : Draw → CreditAccount → Action BillingRepo CreditAccount
  unfolding opened grant_opening
  create_account d a = do
    let a' = opened d a
    raise_if (← gets λ r. lookup_or false (key_of_user a') r.claimed_users) conflict
    raise_if (← gets λ r. lookup_or false (key_of_owner a') r.claimed_users) conflict
    modify (store_account a')
    if int_beq a.balance_cached (pos 0) then pure a' else grant_opening d a' a.balance_cached

  unfoldable pub get_account_by_user : Uuid → Currency → Action BillingRepo CreditAccount
  get_account_by_user user currency = do
    id ←
        or_raise (← gets λ r. lookup (user_currency_key uuid_string user currency) r.by_user)
          not_found
    gets (account_at id)
